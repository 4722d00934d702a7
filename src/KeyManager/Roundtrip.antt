-- ===== src/KeyManager/Roundtrip.antt =====
-- The key store of internal/keymanager/local.go: what a key manager finds after a restart.
use agent_transponder.Prelude.{
  String, ◌≡◌, refl, ◌∙◌, subst, ap, true, inl, inr, Option, none, some, [], ◌∷◌, arith, length,
  ◌==◌, eq_iff, eq_refl, Bool-cases,
}
use mathlib.Core.Option
use agent_transponder.Prelude.Maps.{Map, lookup, insert, lookup-insert}
use agent_transponder.Prelude.Int.{ℤ}
use agent_transponder.Prelude.Result.{ok}
use agent_transponder.KeyManager.{
  Bytes, Cipher, Dek, LocalManager, aes_key, to_stored, from_stored, stored_list, save_store,
  loaded, new_local_manager, unwrap_key, add_dek, generate_dek, get_dek,
}
use agent_transponder.KeyManager.Rotation.{OpensSealed, unwrap-wrap}

-- Each DEK stands under its own bucket, and each bucket once.
abbrev pub IsKeyed : Map Dek → Type 0
IsKeyed [] = Unit
IsKeyed ((bucket, dek) ∷ deks) =
    (dek.bucket_id ≡ bucket) × (lookup bucket deks ≡ none) × IsKeyed deks

-- What a DEK is after it was stored and loaded again: without its raw key.
abbrev pub reloaded : Dek → Dek
reloaded dek = record dek { key = none }

lookup-loaded :
    (bucket : String) (found deks : Map Dek)
    → IsKeyed deks
    → lookup bucket (loaded found (stored_list deks))
      ≡ elim (lookup bucket deks) [ none ↦ lookup bucket found | some dek ↦ some (reloaded dek) ]
unfolding loaded stored_list lookup to_stored from_stored
lookup-loaded bucket found [] h = refl
lookup-loaded bucket found ((b, dek) ∷ deks) (same, once, h) = ground (
  arith,
  eq_iff bucket b,
  eq_iff bucket dek.bucket_id,
  lookup-insert dek.bucket_id bucket (reloaded dek) found,
  lookup-loaded bucket (insert dek.bucket_id (reloaded dek) found) deks h,
)

insert-IsKeyed :
    (dek : Dek) (deks : Map Dek) → IsKeyed deks → IsKeyed (insert dek.bucket_id dek deks)
unfolding insert lookup
insert-IsKeyed dek [] h = (refl, refl, tt)
insert-IsKeyed dek ((b, d) ∷ deks) (same, once, h) = elim (Bool-cases (dek.bucket_id == b)) [
  | inl here ↦ rw here ((eq_iff dek.bucket_id b).0 here, once, h)
  | inr there ↦ rw there (
    same,
    ground (
      arith,
      eq_iff dek.bucket_id b,
      eq_iff b dek.bucket_id,
      lookup-insert dek.bucket_id b dek deks,
    ),
    insert-IsKeyed dek deks h,
  )
]

-- What a restart with the same KEK loads: the same DEKs without their raw keys.
pub restart-lookup :
    (kek : Bytes) (deks : Map Dek) (m : LocalManager) (bucket : String)
    → IsKeyed deks
    → new_local_manager kek (some (stored_list deks)) ≡ ok m
    → (m.kek ≡ kek) × (lookup bucket m.deks ≡ Option.map reloaded (lookup bucket deks))
unfolding new_local_manager lookup
restart-lookup kek deks m bucket h made = ground (arith, lookup-loaded bucket [] deks h)

aes_key-32 : (kek : Bytes) → length kek ≡ 32 → aes_key kek ≡ true
unfolding aes_key
aes_key-32 kek h = ground arith

lookup-insert_self :
    (k : String) (dek : Dek) (deks : Map Dek) → lookup k (insert k dek deks) ≡ some dek
lookup-insert_self k dek deks = ground (arith, eq_refl k, lookup-insert k k dek deks)

module _ (cipher : Cipher) where
  get_dek-reloaded :
      (m : LocalManager) (bucket : String) (dek : Dek) (raw : Bytes)
      → lookup bucket m.deks ≡ some (reloaded dek)
      → unwrap_key cipher m.kek dek.wrapped_key ≡ some raw
      → dek.key ≡ some raw
      → (get_dek cipher bucket m).1 ≡ ok dek
  unfolding get_dek
  get_dek-reloaded m bucket dek raw found unwraps key = ground arith

  -- A key that was made, and could be saved, is found again after a restart with the same KEK.
  pub generate-restart-get :
      (opens : OpensSealed cipher) (m m' : LocalManager) (raw nonce : Bytes) (id bucket : String)
      (now : ℤ)
      → IsKeyed m.deks
      → length m.kek ≡ 32
      → length nonce ≡ cipher.nonce_size
      → new_local_manager m.kek
          (generate_dek cipher true (some raw) (some nonce) id bucket now m).0.store
        ≡ ok m'
      → (dek : Dek) × ((generate_dek cipher true (some raw) (some nonce) id bucket now m).1
          ≡ ok dek)
        × ((get_dek cipher bucket m').1 ≡ ok dek)
        × (dek.key ≡ some raw)
  unfolding generate_dek save_store
  generate-restart-get opens m m' raw nonce id bucket now h size nsize made =
      let (w, wraps, unwraps) =
        unwrap-wrap cipher m.kek nonce raw (aes_key-32 m.kek size) nsize opens in
      let dek : Dek = record {
        id = id;
        bucket_id = bucket;
        key = some raw;
        created_at = now;
        wrapped_key = w;
      } in
      let (same_kek, found) =
        restart-lookup m.kek (insert bucket dek m.deks) m' bucket (insert-IsKeyed dek m.deks h) (
          subst
            (λ (o : Option Bytes).
              new_local_manager m.kek (add_dek cipher true id bucket now raw o m).0.store ≡ ok m')
            wraps made) in
      (
        dek,
        rw wraps,
        get_dek-reloaded m' bucket dek raw
            (found ∙ ap (Option.map reloaded) (lookup-insert_self bucket dek m.deks))
            (ap (λ k. unwrap_key cipher k w) same_kek ∙ unwraps) refl,
        refl,
      )
