-- ===== src/Lib.antt =====
-- plmuggin is a PostgreSQL extension that renders templates, and mugshot an HTTP server in front
-- of PostgreSQL functions. This library models the parts of both that compute.
--
-- The parts, and how they interact. A template text is parsed by muggin_parse (muggin.c), which
-- walks over slices of the text (str.h), interns every string that it reads in one of two string
-- pools (string_pool_use of muggin.c), and builds a tree of nodes (muggin.h). muggin_render walks
-- over the tree and appends to a string buffer (str.h), with the values that a scope binds to the
-- names of the template, and for an "m:q" attribute with the rows of a query. mugshot speaks the
-- wire protocol of PostgreSQL (mugshot/pgwire.c); in mugshot/mugshot.c a worker reads a request with
-- _mugshot_http_read, finds the endpoint that its path matches, and takes the values of the arguments
-- from the path, the query or the form. It has its own base64 and SHA1. In the database, the
-- language handler of plmuggin.c parses and renders the source of the function that is called.
--
-- Base       the shared names: bytes, lists over the native numbers, Boolean tests, and the masks
--            of alignments.
-- Result     how a run of C code ends: in a value or in a Fault. An error that the extension
--            raises and the behaviours that C leaves undefined are faults.
-- Str        the slices of str.h, as lists of bytes. Str/Url decodes URLs; Str/Split, Str/Trim and
--            Str/Equality have the lemmas.
-- Strbuf     the buffer of str.h with its capacity. The allocator is a parameter; Strbuf/Palloc
--            has the one of PostgreSQL, which never refuses.
-- Pool       the string pool of muggin.c. Pool/Slots says when it is well formed, and which list
--            of strings it stands for; Pool/Search, Pool/Intern and Pool/Empty prove it.
-- Template   the structs of muggin.h and the growth of their arrays.
-- Parser     muggin_parse and all it calls, as functions that pass the context on. Parser/Safety
--            has the invariant of the context, one module for each module of the parser.
-- Render     muggin_render, the scopes and the queries. The database (the output functions of
--            types, SPI_execute_with_args) is a parameter. Render/Html is the document described
--            without buffers and tables.
-- Plmuggin   the language handler of plmuggin.c, from a call to the value that it returns, with
--            the catalogs, SPI and the input functions as parameters; Plmuggin/Arguments has the
--            scope that the arguments make, and Plmuggin/Document the whole of a call.
-- Pgwire     the buffer of mugshot/pgwire.c and the messages that are put to it; Pgwire/Read reads
--            messages from the bytes that are to come, and Pgwire/Value the fields of a row, which
--            Pgwire/Row lays out; Pgwire/NextRow takes the rows of a result from the socket.
--            Pgwire/Session has the connection and the replies that expect_msg waits for
--            (Session/Fields the fields of notices and errors, Session/Messages a message,
--            Session/Replies the replies of a server that answers whole, Session/Handled and
--            Session/Termination those of a server whose bytes break off), Pgwire/Query the
--            queries and their results (Query/Rows), and Pgwire/Connect the start of a connection
--            (Connect/Info its connection string, Connect/Greeting what the server says first,
--            Connect/Startup the whole). What `read`, `write`, realloc and the name service decide
--            is a parameter.
-- Mugshot    parts of mugshot/mugshot.c: base64, the arena (on addresses, with malloc as a
--            parameter), the parameters of a form and the match of a path, with Route/Parameters
--            for the parameters of a route. Mugshot/Sha1 has SHA1, with Sha1/Feed and Sha1/Stream
--            for its updates and Sha1/Reference for the digest of a padded text. Mugshot/Http has
--            the connection and the reader of requests: Http/Line the two kinds of lines,
--            Http/Reader the loops, Http/Target, Http/Headers, Http/Pieces and Http/Request what
--            they do on a printed request, Http/Reach and Http/Outcome the states that any input
--            leads to, and Http/Refusal what is refused behind the header. Mugshot/Worker has the
--            choice of the endpoint, and Worker/Dispatch its theorems, Worker/Sql the query for an
--            endpoint, and Worker/Serve the exchange with the database and the answer
--            (Serve/Response the values, Serve/Answer the answer, Serve/Refusal the errors), and
--            Worker/Connection the wait for a connection; Mugshot/Endpoint reads the endpoints
--            from the rows of the catalog. Mugshot/Trie has the search in a trie, and
--            Mugshot/Config the file of settings (Config/Lines its lines, Config/Settings the
--            whole). What arrives at a socket is a list of pieces, and realloc a parameter that
--            says for each size whether there is memory and whether the block moves; a read
--            through a pointer into a block that has moved is a fault.
-- Tests      runs on concrete inputs.
--
-- Bounds and fuel. The recursion of muggin_parse_node has a fuel of twice the length of its input
-- and three, the loops of Parser and Pool a fuel of the length of the text or of the table. None of
-- them runs out, since that would be the fault out_of_fuel, which the theorems exclude. The search
-- for the end of an unquoted value may not end in C; it is modelled by as many rounds as the text
-- has bytes and one, behind which every round is the same. The loop over the lines of a request has
-- a fuel of the length of the input, the padding of SHA1 one of 64 rounds, its blocks one of the
-- length of the text. Integers of a fixed width wrap (`% 2 ^ w`) in the hash, in numbers and in the
-- lengths of messages. Each round of expect_msg and of the loops over rows and greetings takes a
-- message from the socket; their fuel bounds the messages, and more fuel than bytes to come is
-- enough for expect_msg. Sizes in memory are taken to be below the bound of size_t, and the growth by
-- 1.618 is computed in integers, which agrees with the double for sizes below 2 ^ 32.
--
-- Not modelled: sockets, threads and files, the logging macros, mugshot/stb_ds.h, which is vendored;
-- _PG_init of plmuggin.c, whose table no code uses; pg_close of mugshot/pgwire.c; and of
-- mugshot/mugshot.c the loop of a worker around its rounds, the query for the endpoints, and the
-- insertion into the trie.
mod Base
pub mod Result
pub mod Str
pub mod Strbuf
pub mod Pool
pub mod Template
pub mod Parser
pub mod Render
pub mod Plmuggin
pub mod Pgwire
pub mod Mugshot
mod Tests
