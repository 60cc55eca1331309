-- ===== src/Evidence/Store/Laws.antt =====
-- The store returns only bytes that have the digest asked for, and what was put is found again.
use sat_sa_with_pqc.Base.{
  String, eq_iff, eq_refl, ◌≡◌, ◌≢◌, refl, ap, ◌∙◌, true, false, none, some, [], ◌∷◌, ok, arith,
  All, Option-cases, inl, inr,
}
use sat_sa_with_pqc.Evidence.Codec.{Codec, is_digest}
use sat_sa_with_pqc.Evidence.Store.{Files, read_file, write_new, put, get_if_exists, verify, delete}

module _ (c : Codec) where
  open c use {Text, sha3_hex, is_digest-sha3_hex}

  -- Every file has the digest that it is named for.
  abbrev pub IsIntact : Files c → Type 0
  IsIntact = All (λ (file : String × Text). sha3_hex file.1 ≡ file.0)

  IsIntact-read_file :
      (d : String) (files : Files c) (bytes : Text)
      → IsIntact files
      → read_file c d files ≡ some bytes
      → sha3_hex bytes ≡ d
  unfolding read_file
  IsIntact-read_file d [] bytes h e = cc
  IsIntact-read_file d ((n, body) ∷ files) bytes h e =
      ground (arith, eq_iff n d, h.0, IsIntact-read_file d files bytes h.1)

  -- Whatever `get_if_exists` returns has the digest that was asked for, in any state of the files.
  pub get_if_exists_digest :
      (d : String) (files : Files c) (bytes : Text)
      → get_if_exists c d files ≡ ok (some bytes)
      → sha3_hex bytes ≡ d
  unfolding get_if_exists
  get_if_exists_digest d files bytes e = elim (Option-cases (read_file c d files)) [
    | inl absent ↦ ground arith
    | inr (body, found) ↦ ground (arith, eq_iff (sha3_hex body) d)
  ]

  pub put-IsIntact :
      (bytes : Text) (files : Files c) → IsIntact files → IsIntact (put c bytes files).1
  unfolding put write_new
  put-IsIntact bytes files h = elim (Option-cases (read_file c (sha3_hex bytes) files)) [
    | inl absent ↦ rw absent (refl, h)
    | inr (body, found) ↦ rw found h
  ]

  -- In an intact store some bytes are found under the digest of what was put.
  read_file-put :
      (bytes : Text) (files : Files c)
      → IsIntact files
      → (body : Text) × (read_file c (sha3_hex bytes) (put c bytes files).1 ≡ some body)
        × (sha3_hex body ≡ sha3_hex bytes)
  unfolding put write_new read_file
  read_file-put bytes files h = elim (Option-cases (read_file c (sha3_hex bytes) files)) [
    | inl absent ↦ rw absent (bytes, rw (eq_refl (sha3_hex bytes)), refl)
    | inr (body, found) ↦
        rw found (body, found, IsIntact-read_file (sha3_hex bytes) files body h found)
  ]

  pub get_if_exists-found :
      (d : String) (files : Files c) (body : Text)
      → is_digest d ≡ true
      → read_file c d files ≡ some body
      → sha3_hex body ≡ d
      → get_if_exists c d files ≡ ok (some body)
  unfolding get_if_exists
  get_if_exists-found d files body well found digest = ground (arith, eq_iff (sha3_hex body) d)

  -- Putting bytes into an intact store keeps it intact, returns the digest of the bytes, and some
  -- bytes of that digest are found under it.
  pub put_lem :
      (bytes : Text) (files : Files c)
      → IsIntact files
      → IsIntact (put c bytes files).1
        × ((put c bytes files).0 ≡ sha3_hex bytes)
        × ((body : Text) × (get_if_exists c (sha3_hex bytes) (put c bytes files).1 ≡ ok (some body))
            × (sha3_hex body ≡ sha3_hex bytes))
  unfolding put
  put_lem bytes files h =
      let (body, found, digest) = read_file-put bytes files h in
      (
        put-IsIntact bytes files h,
        refl,
        (
          body,
          get_if_exists-found (sha3_hex bytes) (put c bytes files).1 body (is_digest-sha3_hex bytes)
              found digest,
          digest,
        ),
      )

  -- Bytes that were put are found under their digest, unless other bytes were there before.
  pub get_if_exists-put :
      (bytes : Text) (files : Files c)
      → ((old : Text) → read_file c (sha3_hex bytes) files ≡ some old → old ≡ bytes)
      → get_if_exists c (sha3_hex bytes) (put c bytes files).1 ≡ ok (some bytes)
  unfolding put write_new read_file
  get_if_exists-put bytes files h =
      get_if_exists-found (sha3_hex bytes) (put c bytes files).1 bytes (is_digest-sha3_hex bytes)
        (elim (Option-cases (read_file c (sha3_hex bytes) files)) [
          | inl absent ↦ rw absent (rw (eq_refl (sha3_hex bytes)) refl)
          | inr (old, found) ↦ rw found (found ∙ ap some (h old found))
        ])
        refl

  read_file-put_ne :
      (bytes : Text) (files : Files c) (d : String)
      → d ≢ sha3_hex bytes
      → read_file c d (put c bytes files).1 ≡ read_file c d files
  unfolding put write_new read_file
  read_file-put_ne bytes files d ne = elim (Option-cases (read_file c (sha3_hex bytes) files)) [
    | inl absent ↦ rw (absent, write_new) (ground (arith, eq_iff (sha3_hex bytes) d))
    | inr (body, found) ↦ rw (found, write_new)
  ]

  -- Putting bytes leaves every other address as it was.
  pub get_if_exists-put_ne :
      (bytes : Text) (files : Files c) (d : String)
      → d ≢ sha3_hex bytes
      → get_if_exists c d (put c bytes files).1 ≡ get_if_exists c d files
  unfolding get_if_exists
  get_if_exists-put_ne bytes files d ne = rw (read_file-put_ne bytes files d ne)

  read_file-delete_self : (d : String) (files : Files c) → read_file c d (delete c d files) ≡ none
  unfolding read_file delete
  read_file-delete_self d [] = refl
  read_file-delete_self d ((n, body) ∷ files) = ground (arith, read_file-delete_self d files)

  -- A deleted digest does not verify any more.
  pub verify-delete : (d : String) (files : Files c) → verify c d (delete c d files) ≡ false
  unfolding verify
  verify-delete d files = ground (arith, read_file-delete_self d files)
