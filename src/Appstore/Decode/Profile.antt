-- ===== src/Appstore/Decode/Profile.antt =====
-- internal/truenasstore/store.go: the service that `validateFixedRunnerService` accepts.
use garm_provider_truenas.Base.{
  ◌≡◌, refl, All, Bool, true, false, not, arith, ok, [], ◌∷◌, ℕ, String, Option, some, none, List,
}
use garm_provider_truenas.Base.Text.{Text, codes, text_eq_iff, text_eq→eq}
use garm_provider_truenas.Base.Int.{ℤ, pos, negsuc, int_eq}
use garm_provider_truenas.Base.Dict.{Dict}
use garm_provider_truenas.Base.Json.{Value, string, number, Fields}
use garm_provider_truenas.Kit.{Kit}
use garm_provider_truenas.Provider.{runner_image, general_cpu, general_memory_bytes}
use garm_provider_truenas.Appstore.{container_bootstrap_command, credential_tmpfs_mount}
use garm_provider_truenas.Appstore.Reading.{
  get_field, string_list, is_text, is_list, same_list, only_keys,
}
use garm_provider_truenas.Appstore.Decode.{
  ReadInteger, first_drift, runner_guards, required_keys, is_integer, same_integer,
}

-- This field of a service is this text, this list of texts, this number.
abbrev pub HasText : Fields → String → Text → Type 0
HasText runner key text = get_field (codes key) runner ≡ some (string text)

abbrev pub HasTexts : Fields → String → List Text → Type 0
HasTexts runner key texts = string_list (get_field (codes key) runner) ≡ some texts

abbrev pub HasNumber : ReadInteger → Fields → String → ℕ → Type 0
HasNumber read runner key n =
    (text : Text) × (get_field (codes key) runner ≡ some (number text)) × (read text ≡ some (pos n))

-- The runner service of an app in TrueNAS has the fixed profile.
pub record IsFixed (kit : Kit) (read : ReadInteger) (runner : Fields) : Type 0 where
  pub image_is : HasText runner "image" runner_image
  pub user_is : HasText runner "user" (codes "1001:1001")
  pub restart_is : HasText runner "restart" (codes "no")
  pub entrypoint_is :
      HasTexts runner "entrypoint"
        (codes "/bin/sh" ∷ codes "-c" ∷ container_bootstrap_command kit ∷ [])
  pub capabilities_dropped : HasTexts runner "cap_drop" (codes "ALL" ∷ [])
  pub privileges_kept : HasTexts runner "security_opt" (codes "no-new-privileges:true" ∷ [])
  pub cpus_are : HasNumber read runner "cpus" general_cpu
  pub memory_is : HasNumber read runner "mem_limit" general_memory_bytes
  pub tmpfs_is : HasTexts runner "tmpfs" (credential_tmpfs_mount ∷ [])
  -- No `volumes`, `devices` or `privileged`, nor any other field but `extra_hosts`.
  pub only_known : only_keys (codes "extra_hosts" ∷ required_keys) runner ≡ true

is_text-HasText :
    (runner : Fields) (key : String) (text : Text)
    → is_text (get_field (codes key) runner) text ≡ true
    → HasText runner key text
unfolding is_text
is_text-HasText runner key text h = go (get_field (codes key) runner) h
  where
    go : (v : Option Value) → is_text v text ≡ true → v ≡ some (string text)
    go (some (string t)) e = rw (text_eq→eq t text e) refl
    go _ e = cc

same_list-eq :
    (found : Option (List Text)) (texts : List Text)
    → same_list found texts ≡ true
    → found ≡ some texts
unfolding same_list
same_list-eq (some (t ∷ ts)) (u ∷ us) h = ground (arith, text_eq_iff t u, same_list-eq (some ts) us)
same_list-eq (some []) [] h = refl
same_list-eq _ _ h = cc

is_list-HasTexts :
    (runner : Fields) (key : String) (texts : List Text)
    → is_list (get_field (codes key) runner) texts ≡ true
    → HasTexts runner key texts
unfolding is_list
is_list-HasTexts runner key texts h = same_list-eq _ texts h

is_integer-HasNumber :
    (read : ReadInteger) (runner : Fields) (key : String) (n : ℕ)
    → is_integer read (get_field (codes key) runner) n ≡ true
    → HasNumber read runner key n
unfolding is_integer same_integer int_eq
is_integer-HasNumber read runner key n h = go (get_field (codes key) runner) h
  where
    known : (o : Option ℤ) → same_integer o n ≡ true → o ≡ some (pos n)
    known none e = cc
    known (some (pos m)) e = ground arith
    known (some (negsuc m)) e = cc

    go :
        (v : Option Value)
        → is_integer read v n ≡ true
        → (text : Text) × (v ≡ some (number text)) × (read text ≡ some (pos n))
    go (some (number text)) e = (text, refl, known (read text) e)
    go _ e = cc

not-false : {b : Bool} → not b ≡ false → b ≡ true
not-false {b} h = ground arith

first_drift-All :
    (guards : List (Bool × String)) → first_drift guards ≡ ok tt → All (λ g. g.0 ≡ false) guards
unfolding first_drift
first_drift-All [] h = tt
first_drift-All ((true, text) ∷ guards) h = cc
first_drift-All ((false, text) ∷ guards) h = (refl, first_drift-All guards h)

pub runner_guards-IsFixed :
    (kit : Kit) (read : ReadInteger) (runner : Fields) (labels : Dict Text)
    → first_drift (runner_guards kit read runner labels) ≡ ok tt
    → IsFixed kit read runner
unfolding first_drift runner_guards
runner_guards-IsFixed kit read runner labels h =
    let (keys, r1) = first_drift-All (runner_guards kit read runner labels) h in
    let (_, r2) = r1 in
    let (image, r3) = r2 in
    let (user, r4) = r3 in
    let (restart, r5) = r4 in
    let (entrypoint, r6) = r5 in
    let (capabilities, r7) = r6 in
    let (privileges, r8) = r7 in
    let (cpus, r9) = r8 in
    let (memory, r10) = r9 in
    let (tmpfs, _) = r10 in
    record {
      image_is = is_text-HasText runner "image" runner_image (not-false image);
      user_is = is_text-HasText runner "user" (codes "1001:1001") (not-false user);
      restart_is = is_text-HasText runner "restart" (codes "no") (not-false restart);
      entrypoint_is = is_list-HasTexts runner "entrypoint" _ (not-false entrypoint);
      capabilities_dropped = is_list-HasTexts runner "cap_drop" _ (not-false capabilities);
      privileges_kept = is_list-HasTexts runner "security_opt" _ (not-false privileges);
      cpus_are = is_integer-HasNumber read runner "cpus" general_cpu (not-false cpus);
      memory_is =
          is_integer-HasNumber read runner "mem_limit" general_memory_bytes (not-false memory);
      tmpfs_is = is_list-HasTexts runner "tmpfs" _ (not-false tmpfs);
      only_known = not-false keys;
    }
