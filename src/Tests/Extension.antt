-- ===== src/Tests/Extension.antt =====
-- Calls of a template function, as the extension gets them.
use plmuggin.Base.{
  ◌≡◌, refl, true, some, none, List, [], ◌∷◌, codes, length, lacks-Lacks, ◌==◌, if◌then◌else◌,
}
use plmuggin.Plmuggin.Arguments.{Argument}
use plmuggin.Plmuggin.Document.{document, plmuggin_call_handler-document}
use plmuggin.Plmuggin.{Procedure, Server, plmuggin_call_handler, load_template}
use plmuggin.Render.{c_string}
use plmuggin.Result.{ok, fail, raised}
use plmuggin.Tests.Page.{page, page_template, parse_page, less, one_bound}

-- a function with the source of the page and the argument `n`
abbrev page_function : Procedure
page_function = record {
  prosrc = some page;
  numargs = 1;
  argnames = some (codes "n" ∷ []);
  proargtypes = 25 ∷ [];
  prorettype = 25;
}

-- a server that knows the function 7, and whose values are numbered by their length
abbrev small_server : Server
small_server = record {
  procedure = λ oid. if oid == 7 then some page_function else none;
  spi_connect = true;
  input_function = λ oid. some (λ s. ok (length s));
  database = less;
}

abbrev page_arguments : List Argument
page_arguments = record { name = codes "n"; oid = 25; value = 7 } ∷ []

plmuggin_call_handler-document_example :
    plmuggin_call_handler small_server (record { fn_oid = 7; args = 7 ∷ [] })
    ≡ ok (length (c_string (document small_server page_template one_bound)))
unfolding plmuggin.Str.str_eq
plmuggin_call_handler-document_example =
    plmuggin_call_handler-document small_server 7 page_function page page_arguments one_bound
      (λ s. ok (length s)) refl refl refl (lacks-Lacks 0 page refl)
      (record { numargs = refl; argnames = refl; proargtypes = refl })
      (((cc), lacks-Lacks 0 (codes "n") refl), tt) refl parse_page refl refl

-- a function that is not in the catalog raises an error
unknown_function :
    plmuggin_call_handler small_server (record { fn_oid = 8; args = [] }) ≡ fail raised
unfolding plmuggin_call_handler plmuggin.Plmuggin.expect_found
unknown_function = refl

-- no template comes from a database that gives no rows
no_source : load_template less length (codes "layout") ≡ fail raised
unfolding load_template
no_source = refl
