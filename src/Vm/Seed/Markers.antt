-- ===== src/Vm/Seed/Markers.antt =====
-- internal/vmbackend/manager.go: the characters of the names that `ownedName` makes, as
-- `vmBootstrapLauncher` tests them.
use garm_provider_truenas.Base.{
  ℕ, zero, suc, ◌/◌, ◌%◌, ◌<◌, ◌≡◌, refl, Bool, true, false, List, [], ◌∷◌, ◌++◌, arith, take, trim,
  trim_left, trim_right, any, All,
}
use garm_provider_truenas.Base.Text.{Text, codes, is_alnum, collapse, to_lower}
use garm_provider_truenas.Base.Hex.{hex_encode, hex_digit}
use garm_provider_truenas.Vm.{vm_bootstrap_consumed_marker_prefix}
use garm_provider_truenas.Vm.Seed.{sanitize_vm_name_part, clip_prefix, owned_name, is_underscore}
use garm_provider_truenas.Script.Launcher.{is_bad_marker, is_marker_char}

-- A digest consists of bytes.
abbrev pub AreBytes : (Text → List ℕ) → Type 0
AreBytes sha256 = (t : Text) → All (λ b. b < 256) (sha256 t)

append-good :
    (s t : Text)
    → is_bad_marker s ≡ false
    → is_bad_marker t ≡ false
    → is_bad_marker (s ++ t) ≡ false
unfolding is_bad_marker any
append-good [] t h k = k
append-good (c ∷ s) t h k = ground (arith, append-good s t)

trim_left-good :
    (p : ℕ → Bool) (t : Text) → is_bad_marker t ≡ false → is_bad_marker (trim_left p t) ≡ false
unfolding is_bad_marker any trim_left
trim_left-good p [] h = refl
trim_left-good p (c ∷ t) h = ground (arith, trim_left-good p t)

trim_right-good :
    (p : ℕ → Bool) (t : Text) → is_bad_marker t ≡ false → is_bad_marker (trim_right p t) ≡ false
unfolding is_bad_marker any trim_right
trim_right-good p [] h = refl
trim_right-good p (c ∷ t) h = ground (arith, trim_right-good p t)

trim-good : (p : ℕ → Bool) (t : Text) → is_bad_marker t ≡ false → is_bad_marker (trim p t) ≡ false
unfolding trim
trim-good p t h = trim_right-good p _ (trim_left-good p t h)

take-good : (n : ℕ) (t : Text) → is_bad_marker t ≡ false → is_bad_marker (take n t) ≡ false
unfolding is_bad_marker any
take-good zero t h = refl
take-good (suc n) [] h = refl
take-good (suc n) (c ∷ t) h = ground (arith, take-good n t)

alnum-good : (c : ℕ) → is_alnum c ≡ true → is_marker_char c ≡ true
unfolding is_alnum is_marker_char
alnum-good c h = ground arith

collapse-good : (last : Bool) (t : Text) → is_bad_marker (collapse b'_' last t) ≡ false
unfolding is_bad_marker any collapse
collapse-good last [] = refl
collapse-good last (c ∷ t) =
    ground (arith, alnum-good c, is_marker_char, collapse-good true t, collapse-good false t)

part-good : (t : Text) → is_bad_marker (sanitize_vm_name_part t) ≡ false
unfolding sanitize_vm_name_part
part-good t = trim-good is_underscore _ (collapse-good false (to_lower t))

hex_digit-good : (n : ℕ) → n < 16 → is_marker_char (hex_digit n) ≡ true
unfolding hex_digit is_marker_char
hex_digit-good n h = ground arith

hex_encode-good : (bs : List ℕ) → All (λ b. b < 256) bs → is_bad_marker (hex_encode bs) ≡ false
unfolding is_bad_marker any hex_encode
hex_encode-good [] h = refl
hex_encode-good (b ∷ bs) h =
    ground (arith, hex_digit-good (b / 16), hex_digit-good (b % 16), hex_encode-good bs h.1, h.0)

take-bytes : (n : ℕ) (bs : List ℕ) → All (λ b. b < 256) bs → All (λ b. b < 256) (take n bs)
take-bytes zero bs h = tt
take-bytes (suc n) [] h = tt
take-bytes (suc n) (b ∷ bs) h = (h.0, take-bytes n bs h.1)

clip-good : (t : Text) → is_bad_marker t ≡ false → is_bad_marker (clip_prefix t) ≡ false
unfolding clip_prefix
clip-good t h = ground (arith, trim-good is_underscore (take 48 t), take-good 48 t)

-- The launcher takes the consumption marker of every VM that the manager names.
pub marker-good :
    (sha256 : Text → List ℕ)
    → AreBytes sha256
    → (controller_id requested : Text)
    → is_bad_marker
        (vm_bootstrap_consumed_marker_prefix ++ owned_name sha256 controller_id requested)
      ≡ false
unfolding owned_name codes
marker-good sha256 bytes controller_id requested =
    let raw =
      sanitize_vm_name_part controller_id ++ (codes "_" ++ sanitize_vm_name_part requested) in
    let underscore : is_bad_marker (codes "_") ≡ false =
      (unfold is_bad_marker any is_marker_char codes in refl) in
    append-good vm_bootstrap_consumed_marker_prefix _
      (unfold is_bad_marker any is_marker_char codes in refl)
      (append-good (clip_prefix (trim is_underscore (codes "garm_" ++ raw))) _
        (clip-good _ (
          trim-good is_underscore _ (
            append-good (codes "garm_") raw (unfold is_bad_marker any is_marker_char codes in refl)
              (append-good (sanitize_vm_name_part controller_id) _ (part-good controller_id)
                (append-good (codes "_") _ underscore (part-good requested))))))
        (append-good (codes "_") _ underscore
          (hex_encode-good _ (take-bytes 4 (sha256 raw) (bytes raw)))))
