-- ===== src/Provider/Manager/Pools.antt =====
-- internal/provider/provider.go: `Create` and `List` stay within the pool that was asked for.
use garm_provider_truenas.Base.{
  ℕ, ◌≡◌, refl, true, false, List, [], ◌∷◌, map, keep, All, arith, is_empty, done, ok, inl, inr,
  Outcome-cases,
}
use garm_provider_truenas.Base.Text.{Text, text_eq_iff, is_blank}
use garm_provider_truenas.Provider.{App, Bootstrap, Instance}
use garm_provider_truenas.Provider.Manager.{
  Manager, create, list, validate_bootstrap, wrong_pool, is_listed, to_instance,
}

blank_of_empty : (t : Text) → is_empty t ≡ true → is_blank t ≡ true
unfolding is_blank
blank_of_empty [] h = refl
blank_of_empty (c ∷ t) h = cc

pool_is_named :
    (input : Bootstrap) → validate_bootstrap input ≡ ok tt → is_empty input.pool_id ≡ false
unfolding validate_bootstrap
pool_is_named input h = ground (arith, blank_of_empty input.pool_id)

module _ {S : Type 0} (m : Manager S) where
  -- Whatever the client answers, an instance that `create` returns is in the pool of the request.
  pub create-pool :
      (sha256 : Text → List ℕ) (input : Bootstrap) (s s' : S) (i : Instance)
      → create m sha256 input s ≡ done i s'
      → i.pool_id ≡ input.pool_id
  unfolding create wrong_pool
  create-pool sha256 input s s' i made =
      ground (arith, pool_is_named input, text_eq_iff i.pool_id input.pool_id)

  keep-listed :
      (controller_id pool_id : Text) (apps : List App)
      → All
          (λ (i : Instance). wrong_pool pool_id i.pool_id ≡ false)
          (map to_instance (keep (is_listed controller_id pool_id) apps))
  unfolding keep is_listed to_instance
  keep-listed controller_id pool_id [] = tt
  keep-listed controller_id pool_id (app ∷ apps) =
      ground (arith, keep-listed controller_id pool_id apps)

  -- `list` returns no instance of another pool than the one that is named, if one is.
  pub list-pool :
      (pool_id : Text) (s s' : S) (items : List Instance)
      → list m pool_id s ≡ done items s'
      → All (λ (i : Instance). wrong_pool pool_id i.pool_id ≡ false) items
  unfolding list
  list-pool pool_id s s' items h = elim (Outcome-cases (m.client.list_apps s)) [
    | inl (apps, t, e) ↦
        let same : map to_instance (keep (is_listed m.controller_id pool_id) apps) ≡ items =
          ground (arith, e) in
        rw (← same) (keep-listed m.controller_id pool_id apps)
    | inr (x, t, e) ↦ absurd (ground (arith, e))
  ]
