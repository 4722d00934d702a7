-- ===== src/Examples/KeyExamples.antt =====
-- The theorems on internal/keymanager at concrete inputs, with a toy cipher in place of AES-GCM.
use agent_transponder.Prelude.{
  ◌≡◌, ◌≢◌, refl, sym, String, Bool, inl, inr, Bool-cases, true, false, Option, none, some, List,
  [], ◌∷◌, ◌++◌, eq_iff, arith, eqb, ◌&&◌, length, take, drop, replicate, if◌then◌else◌,
  take-length_append, drop-length_append,
}
use mathlib.Core.Option
use agent_transponder.Prelude.Int.{pos}
use agent_transponder.Prelude.Maps.{lookup}
use agent_transponder.Prelude.Result.{ok, err}
use agent_transponder.KeyManager.{
  Bytes, Cipher, Dek, StoredDek, LocalManager, unwrap_dek, rotation_unwrap, aes_key, stored_list,
  save_store, new_local_manager, unwrap_key, generate_dek, get_dek,
}
use agent_transponder.KeyManager.Roundtrip.{IsKeyed, generate-restart-get}
use agent_transponder.KeyManager.Rotation.{OpensSealed, Rewrapped, rotate_kek, rotate_kek-Rewrapped}
use agent_transponder.KeyManager.Loss.{OpensOwnOnly, rotate_kek_loses, rotate-restart_loses}

unfoldable same_bytes : Bytes → Bytes → Bool
same_bytes [] [] = true
same_bytes [] (x ∷ xs) = false
same_bytes (x ∷ xs) [] = false
same_bytes (x ∷ xs) (y ∷ ys) = if eqb x y then same_bytes xs ys else false

same_bytes_refl : (xs : Bytes) → same_bytes xs xs ≡ true
unfolding same_bytes
same_bytes_refl [] = refl
same_bytes_refl (x ∷ xs) = ground (arith, same_bytes_refl xs)

same_bytes_sound : (xs ys : Bytes) → same_bytes xs ys ≡ true → xs ≡ ys
unfolding same_bytes
same_bytes_sound [] [] h = refl
same_bytes_sound [] (x ∷ xs) h = ground arith
same_bytes_sound (x ∷ xs) [] h = ground arith
same_bytes_sound (x ∷ xs) (y ∷ ys) h = ground (arith, same_bytes_sound xs ys)

unfoldable toy_open : Bytes → Bytes → Bytes → Option Bytes
toy_open key nonce [] = none
toy_open key nonce (n ∷ text) =
    if eqb n (length key) && (same_bytes (take (length key) text) key)
    then some (drop n text)
    else none

abbrev toy : Cipher
toy = record {
  nonce_size = 1;
  seal = λ key nonce text. length key ∷ key ++ text;
  open_box = toy_open;
}

opens : OpensSealed toy
unfolding toy_open
opens key nonce text =
    ground (arith, take-length_append key text, drop-length_append key text, same_bytes_refl key)

own_only : OpensOwnOnly toy
unfolding toy_open
own_only key other nonce text ne = elim (Bool-cases (eqb (length other) (length key))) [
  | inl same ↦ ground (arith, take-length_append key text, same_bytes_sound key other)
  | inr differ ↦ ground arith
]

abbrev old_kek : Bytes
old_kek = replicate 32 1

abbrev new_kek : Bytes
new_kek = replicate 32 2

abbrev made : Dek
made = record {
  id = "dek-a-1";
  bucket_id = "a";
  key = some (5 ∷ []);
  wrapped_key = 9 ∷ toy.seal old_kek (9 ∷ []) (5 ∷ []);
  created_at = pos 10;
}

abbrev other : Dek
other = record {
  id = "dek-b-2";
  bucket_id = "b";
  key = none;
  wrapped_key = 8 ∷ toy.seal old_kek (8 ∷ []) (6 ∷ []);
  created_at = pos 11;
}

abbrev manager : LocalManager
manager = record {
  deks = ("a", made) ∷ [];
  kek = old_kek;
  store = some (stored_list (("a", made) ∷ []));
}

abbrev restarted : LocalManager
restarted = record {
  deks = ("a", record made { key = none }) ∷ ("b", other) ∷ [];
  kek = old_kek;
  store = none;
}

abbrev nonces : String → Option Bytes
nonces bucket = some (7 ∷ [])

abbrev from_store : Option (List StoredDek) → LocalManager
from_store store = elim (new_local_manager old_kek store) [ ok m ↦ m | err e ↦ manager ]

kek_differs : new_kek ≢ old_kek
kek_differs same = ground arith

manager-IsKeyed : IsKeyed manager.deks
unfolding lookup
manager-IsKeyed = (refl, refl, tt)

abbrev generated : Option (List StoredDek)
generated =
    (generate_dek toy true (some (4 ∷ [])) (some (3 ∷ [])) "dek-b-9" "b" (pos 9) manager).0.store

generate-restart-get_example :
    (dek : Dek) × ((generate_dek toy true
        (some (4 ∷ []))
        (some (3 ∷ []))
        "dek-b-9"
        "b"
        (pos 9)
        manager).1
      ≡ ok dek)
    × ((get_dek toy "b" (from_store generated)).1 ≡ ok dek)
    × (dek.key ≡ some (4 ∷ []))
unfolding generate_dek save_store new_local_manager
generate-restart-get_example =
    generate-restart-get toy opens manager (from_store generated) (4 ∷ []) (3 ∷ []) "dek-b-9" "b"
      (pos 9) manager-IsKeyed refl refl refl

rotate_kek-Rewrapped_example :
    let (m', failed) = rotate_kek toy true (some new_kek) nonces manager in
    (failed ≡ none)
    × (m'.kek ≡ new_kek)
    × Rewrapped toy new_kek manager.deks m'.deks
    × (m'.store ≡ some (stored_list m'.deks))
unfolding aes_key
rotate_kek-Rewrapped_example =
    rotate_kek-Rewrapped toy opens new_kek refl nonces (λ bucket. (7 ∷ [], refl, refl)) manager
      ((5 ∷ [], refl), tt)

rotate_kek_loses_example :
    let (m', failed) = rotate_kek toy true (some new_kek) nonces restarted in
    (failed ≡ some (rotation_unwrap "b"))
    × (m'.kek ≡ new_kek)
    × ((get_dek toy "b" m').1 ≡ err unwrap_dek)
unfolding aes_key unwrap_key toy_open same_bytes
rotate_kek_loses_example =
    rotate_kek_loses toy own_only restarted "a" "b" (record made { key = none }) other [] new_kek
      (5 ∷ []) (7 ∷ []) nonces true refl (λ same. ground (arith, eq_iff "a" "b")) refl refl refl
      (record { nonce = 8 ∷ []; raw = 6 ∷ []; size = refl; wrapped = refl }) kek_differs refl refl

rotate-restart_loses_example :
    (get_dek toy "a" (from_store (rotate_kek toy true (some new_kek) nonces manager).0.store)).1
    ≡ err unwrap_dek
unfolding rotate_kek save_store new_local_manager aes_key lookup
rotate-restart_loses_example =
    rotate-restart_loses toy opens own_only new_kek refl nonces (λ bucket. (7 ∷ [], refl, refl))
      manager (from_store (rotate_kek toy true (some new_kek) nonces manager).0.store) "a" made
      (λ same. kek_differs (sym same)) ((5 ∷ [], refl), tt) manager-IsKeyed refl refl
