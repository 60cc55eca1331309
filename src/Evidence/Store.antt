-- ===== src/Evidence/Store.antt =====
-- qsmlops/artifacts/store.py: the content-addressed store. The directory is a dictionary from a
-- file's name, its digest, to the bytes of the file; writing through a temporary file and a rename
-- is one step.
pub mod Laws
use sat_sa_with_pqc.Base.{
  String, ◌==◌, Bool, true, false, not, Option, none, some, List, [], ◌∷◌, Result, ok, err, ◌>>=◌,
  ◌>>◌, raise_if, if◌then◌else◌,
}
use sat_sa_with_pqc.Evidence.Codec.{Codec, is_digest}

pub data StoreError : Type 0 where
  malformed_digest corrupted not_found : StoreError

module _ (c : Codec) where
  open c use {Text, sha3_hex}

  abbrev pub Files : Type 0
  Files = List (String × Text)

  -- The bytes of the file at `_path_for(digest)`, if it exists.
  unfoldable pub read_file : String → Files → Option Text
  read_file d [] = none
  read_file d ((e, body) ∷ files) = if e == d then some body else read_file d files

  pub data_exists : Option Text → Bool
  data_exists none = false
  data_exists (some body) = true

  -- The files after `put` found this at the address of the bytes: an existing file stays.
  unfoldable pub write_new : String → Text → Files → Option Text → Files
  write_new digest bytes files none = (digest, bytes) ∷ files
  write_new digest bytes files (some old) = files

  unfoldable pub put : Text → Files → String × Files
  put bytes files =
      let digest = sha3_hex bytes in (digest, write_new digest bytes files (read_file digest files))

  -- `_validate_digest`
  unfoldable pub validate_digest : String → Result StoreError (Unit {0})
  validate_digest digest = raise_if (not (is_digest digest)) malformed_digest

  check_bytes : String → Option Text → Result StoreError (Option Text)
  check_bytes digest none = ok none
  check_bytes digest (some bytes) =
      if sha3_hex bytes == digest then ok (some bytes) else err corrupted

  unfoldable pub get_if_exists : String → Files → Result StoreError (Option Text)
  unfolding validate_digest check_bytes
  get_if_exists digest files = do
    validate_digest digest
    check_bytes digest (read_file digest files)

  or_not_found : Option Text → Result StoreError Text
  or_not_found none = err not_found
  or_not_found (some bytes) = ok bytes

  unfoldable pub get : String → Files → Result StoreError Text
  unfolding get_if_exists or_not_found
  get digest files = do found ← get_if_exists digest files; or_not_found found

  unfoldable pub exists : String → Files → Result StoreError Bool
  unfolding get_if_exists data_exists
  exists digest files = do found ← get_if_exists digest files; ok (data_exists found)

  -- `verify`: IOError and ValueError count as "not intact".
  unfoldable pub verify : String → Files → Bool
  unfolding get_if_exists data_exists
  verify digest files = elim (get_if_exists digest files) [
    | ok found ↦ data_exists found
    | err e ↦ false
  ]

  unfoldable pub delete : String → Files → Files
  delete d [] = []
  delete d ((e, bytes) ∷ files) =
      let rest = delete d files in if e == d then rest else (e, bytes) ∷ rest
