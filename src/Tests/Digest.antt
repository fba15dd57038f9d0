-- ===== src/Tests/Digest.antt =====
-- Runs of SHA1 on concrete inputs, and its theorems applied to them.
use plmuggin.Base.{◌≡◌, refl, [], ◌∷◌, ◌++◌, codes}
use plmuggin.Mugshot.Sha1.Reference.{padded_digest, sha1-reference}
use plmuggin.Mugshot.Sha1.Stream.{Same, sha1_init-Holds, sha1_update-append}
use plmuggin.Mugshot.Sha1.{
  sha1, sha1_final, sha1_update, sha1_init, pad_zeros, digest, final_count, full_blocks, store_rest,
  put_at, sha1_transform,
}

abc_digest :
    sha1 (codes "abc")
    ≡ 0xA9 ∷ 0x99 ∷ 0x3E ∷ 0x36 ∷ 0x47 ∷ 0x06 ∷ 0x81 ∷ 0x6A ∷ 0xBA ∷ 0x3E ∷ 0x25 ∷ 0x71 ∷ 0x78
      ∷ 0x50 ∷ 0xC2 ∷ 0x6C ∷ 0x9C ∷ 0xD0 ∷ 0xD8 ∷ 0x9D ∷ []
unfolding sha1 sha1_final sha1_update sha1_init pad_zeros digest final_count full_blocks store_rest
    put_at sha1_transform
abc_digest = refl

sha1-reference_example : sha1 (codes "abc") ≡ padded_digest (codes "abc")
sha1-reference_example = sha1-reference (codes "abc")

sha1_update-append_example :
    Same
      (sha1_update (sha1_update sha1_init (codes "ab")) (codes "c"))
      (sha1_update sha1_init (codes "ab" ++ codes "c"))
sha1_update-append_example = sha1_update-append sha1_init _ (codes "ab") (codes "c") sha1_init-Holds
