-- ===== src/History/Keyring.antt =====
-- storage/db.rs: the keys of `meta` that bind the history to its master key and its lock, the
-- re-encryption of every preview under a new key, and the wipe.
use panora.Prelude.{
  Option, none, some, List, [], ◌∷◌, Text, nat_eq, list_eq, Result, ok, ◌>>=◌, ok_or,
}
use panora.History.Defs.{Row, Database, Error, crypto}
use panora.History.Entries.{Cipher, preview_aad, or_else}

unfoldable pub set_rotation_state : Option Text → Database → Database
set_rotation_state state db = record db { rotation_state = state }

pub record LockSecret : Type 0 where
  pub verifier : Text
  pub kek_salt : Text

unfoldable pub pair_secret : Option Text → Option Text → Option LockSecret
pair_secret (some v) (some s) = some (record { verifier = v; kek_salt = s })
pair_secret (some v) none = none
pair_secret none salt = none

unfoldable pub lock_secret : Database → Option LockSecret
unfolding pair_secret
lock_secret db = pair_secret db.lock_verifier db.lock_kek_salt

unfoldable pub set_lock_secret : Option LockSecret → Database → Database
set_lock_secret (some s) db = record db {
  lock_verifier = some s.verifier;
  lock_kek_salt = some s.kek_salt;
}
set_lock_secret none db = record db { lock_verifier = none; lock_kek_salt = none }

-- The preview under the old key, or under the new one where a run was interrupted; each in the
-- bound form first and in the unbound form of older versions next.
unfoldable pub open_any : Cipher → Cipher → Text → Text → Option Text
open_any old new hash sealed = or_else (old.open_text_with_aad (preview_aad hash) sealed) (
    or_else (old.open_text sealed)
      (or_else (new.open_text_with_aad (preview_aad hash) sealed) (new.open_text sealed)))

unfoldable pub rekey_row : Cipher → Cipher → Row → Result Error Row
unfolding open_any
rekey_row old new r = do
  plaintext ← ok_or (open_any old new r.content_hash r.preview) crypto
  resealed ← ok_or (new.seal_text_with_aad (preview_aad r.content_hash) plaintext) crypto
  ok (record r { preview = resealed })

unfoldable pub rekey_rows : Cipher → Cipher → List Row → Result Error (List Row)
unfolding rekey_row
rekey_rows old new [] = ok []
rekey_rows old new (r ∷ rs) = do
  r' ← rekey_row old new r
  rs' ← rekey_rows old new rs
  ok (r' ∷ rs')

-- One transaction: with any row that neither key opens, nothing is changed.
unfoldable pub rekey : Cipher → Cipher → Database → Result Error Database
unfolding rekey_rows
rekey old new db = do
  rows ← rekey_rows old new db.entries
  ok (record db { entries = rows; key_fingerprint = some new.fingerprint })

unfoldable pub wipe : Database → Database
wipe db = record db {
  entries = [];
  entry_blobs = [];
  entries_fts = [];
  lock_verifier = none;
  lock_kek_salt = none;
  rotation_state = none;
}
