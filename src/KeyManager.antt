-- ===== src/KeyManager.antt =====
-- internal/keymanager/manager.go and local.go: data encryption keys (DEKs), each wrapped by the
-- key encryption key (KEK) and kept in a JSON file. AES-GCM is a parameter, and what the random
-- source returns is an argument, `none` for its error. The file is the list of its records; it is
-- replaced as a whole by a rename, or not at all. A `*DEK` that the caller keeps is not modelled.
pub mod Roundtrip
pub mod Rotation
pub mod Loss
use agent_transponder.Prelude.{
  ℕ, zero, suc, String, Bool, true, false, ◌||◌, Option, none, some, List, [], ◌∷◌, ◌++◌, map,
  length, take, drop, replicate, ltb, eqb, if◌then◌else◌,
}
use mathlib.Core.Option
use agent_transponder.Prelude.Int.{ℤ}
use agent_transponder.Prelude.Maps.{Map, lookup, insert, delete}
use agent_transponder.Prelude.Result.{Result, ok, err}

abbrev pub Bytes : Type 0
Bytes = List ℕ

-- crypto/cipher's GCM over crypto/aes.
pub record Cipher : Type 0 where
  pub nonce_size : ℕ
  -- seal key nonce plaintext, and open_box key nonce ciphertext
  pub seal : Bytes → Bytes → Bytes → Bytes
  pub open_box : Bytes → Bytes → Bytes → Option Bytes

pub record Dek : Type 0 where
  pub id : String
  pub bucket_id : String
  pub key : Option Bytes
  pub wrapped_key : Bytes
  pub created_at : ℤ

pub record StoredDek : Type 0 where
  pub id : String
  pub bucket_id : String
  pub wrapped_key : Bytes
  pub created_at : ℤ

pub record DekMetadata : Type 0 where
  pub id : String
  pub bucket_id : String
  pub created_at : ℤ
  pub active : Bool

pub record LocalManager : Type 0 where
  pub deks : Map Dek
  pub kek : Bytes
  -- The file at storePath, `none` if there is none.
  pub store : Option (List StoredDek)

pub data KeyError : Type 0 where
  kek_length : ℕ → KeyError
  random_key wrap_dek unwrap_dek persist : KeyError
  no_dek : String → KeyError
  rotation_unwrap rotation_wrap : String → KeyError

-- aes.NewCipher takes keys of 16, 24 and 32 bytes.
unfoldable pub aes_key : Bytes → Bool
aes_key kek = eqb (length kek) 16 || eqb (length kek) 24 || eqb (length kek) 32

abbrev pub zeroed : Bytes → Bytes
zeroed bytes = replicate (length bytes) 0

unfoldable pub to_stored : Dek → StoredDek
to_stored dek = record {
  id = dek.id;
  bucket_id = dek.bucket_id;
  created_at = dek.created_at;
  wrapped_key = dek.wrapped_key;
}

unfoldable pub from_stored : StoredDek → Dek
from_stored s = record {
  id = s.id;
  bucket_id = s.bucket_id;
  key = none;
  created_at = s.created_at;
  wrapped_key = s.wrapped_key;
}

-- The loop of saveStore.
unfoldable pub stored_list : Map Dek → List StoredDek
stored_list [] = []
stored_list ((bucket, dek) ∷ deks) = to_stored dek ∷ stored_list deks

-- `written` says whether the file could be replaced.
unfoldable pub save_store : Bool → LocalManager → LocalManager × Option KeyError
save_store written m =
    if written then (record m { store = some (stored_list m.deks) }, none) else (m, some persist)

-- The loop of loadStore.
unfoldable pub loaded : Map Dek → List StoredDek → Map Dek
loaded deks [] = deks
loaded deks (s ∷ rest) = loaded (insert s.bucket_id (from_stored s) deks) rest

load_store : Option (List StoredDek) → Map Dek
load_store none = []
load_store (some records) = loaded [] records

-- The store is given as the file's records: one that cannot be read or parsed is not modelled.
unfoldable pub new_local_manager : Bytes → Option (List StoredDek) → Result KeyError LocalManager
unfolding load_store
new_local_manager kek store =
    if eqb (length kek) 32
    then ok (record { kek = kek; deks = load_store store; store = store })
    else err (kek_length (length kek))

unfoldable pub list_deks : LocalManager → List DekMetadata
list_deks m =
    map
      (λ (entry : String × Dek). record {
        id = entry.1.id;
        bucket_id = entry.1.bucket_id;
        created_at = entry.1.created_at;
        active = true;
      })
      m.deks

-- The raw keys and the KEK are overwritten with zeros; the wrapped keys stay.
unfoldable pub close : LocalManager → LocalManager
close m = record m {
  kek = zeroed m.kek;
  deks =
      map
        (λ (entry : String × Dek).
          (entry.0, record entry.1 { key = Option.map zeroed entry.1.key }))
        m.deks;
}

-- The zeroed record is dropped from the map at once.
unfoldable pub shred_dek : Bool → String → LocalManager → LocalManager × Option KeyError
shred_dek written bucket m = elim (lookup bucket m.deks) [
  | none ↦ (m, none)
  | some dek ↦ save_store written (record m { deks = delete bucket m.deks })
]

module _ (cipher : Cipher) where
  open cipher use {nonce_size, seal, open_box}

  unfoldable pub wrap_key : Bytes → Option Bytes → Bytes → Option Bytes
  wrap_key kek nonce plaintext =
      if aes_key kek then Option.map (λ n. n ++ seal kek n plaintext) nonce else none

  unfoldable pub unwrap_key : Bytes → Bytes → Option Bytes
  unwrap_key kek ciphertext =
      if aes_key kek
      then if ltb (length ciphertext) nonce_size
        then none
        else open_box kek (take nonce_size ciphertext) (drop nonce_size ciphertext)
      else none

  unfoldable pub add_dek :
      Bool
      → String
      → String
      → ℤ
      → Bytes
      → Option Bytes
      → LocalManager
      → LocalManager × Result KeyError Dek
  add_dek written id bucket now raw none m = (m, err wrap_dek)
  add_dek written id bucket now raw (some wrapped) m =
      let dek : Dek = record {
        id = id;
        bucket_id = bucket;
        key = some raw;
        created_at = now;
        wrapped_key = wrapped;
      } in
      let (m', failed) = save_store written (record m { deks = insert bucket dek m.deks }) in
      (m', elim failed [ none ↦ ok dek | some e ↦ err e ])

  -- The raw key, then the nonce, come from the random source; `id` holds the bucket and the clock.
  unfoldable pub generate_dek :
      Bool
      → Option Bytes
      → Option Bytes
      → String
      → String
      → ℤ
      → LocalManager
      → LocalManager × Result KeyError Dek
  unfolding add_dek
  generate_dek written none _ id bucket now m = (m, err random_key)
  generate_dek written (some raw) nonce id bucket now m =
      add_dek written id bucket now raw (wrap_key m.kek nonce raw) m

  keep_raw : String → Dek → Option Bytes → LocalManager → LocalManager × Result KeyError Dek
  keep_raw bucket dek none m = (m, err unwrap_dek)
  keep_raw bucket dek (some raw) m =
      let dek' = record dek { key = some raw } in
      (record m { deks = insert bucket dek' m.deks }, ok dek')

  found_dek : String → Dek → Option Bytes → LocalManager → LocalManager × Result KeyError Dek
  unfolding keep_raw
  found_dek bucket dek (some raw) m = (m, ok dek)
  found_dek bucket dek none m = keep_raw bucket dek (unwrap_key m.kek dek.wrapped_key) m

  unfoldable pub get_dek : String → LocalManager → LocalManager × Result KeyError Dek
  unfolding found_dek
  get_dek bucket m = elim (lookup bucket m.deks) [
    | none ↦ (m, err (no_dek bucket))
    | some dek ↦ found_dek bucket dek dek.key m
  ]
