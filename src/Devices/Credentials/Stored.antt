-- ===== src/Devices/Credentials/Stored.antt =====
-- Proofs on the stored form of devices/credentials.py, and the interface of the registry that it fills.
use Prim.Native.Char.{code}
use industrial_equipment_mon.Prelude.{
  ◌≡◌, refl, sym, ap, ◌∙◌, String, true, false, some, [], ◌∷◌, arith, nat_eq, eq_nat, nat_eq_iff,
  ◌↔◌,
}
use industrial_equipment_mon.Prelude.Table.{lookup}
use industrial_equipment_mon.Prelude.Texts.{
  concat, has_character, split_parts, split_parts-concat, split_parts-free,
}
use industrial_equipment_mon.Devices.Registry.{Credentials}
use industrial_equipment_mon.Devices.Credentials.{
  Nibble, n0, n1, Bytes, digit, nibbles, to_hex, from_hex, is_ascii_space, same_nibble,
  compare_digest, Hashing, hash_password, verify_password,
}

-- What is known of the digit of a nibble: it is read back, and is no space and no separator.
record IsDigit (n : Nibble) : Type 0 where
  pub read : lookup (code (digit n)) nibbles ≡ some n
  pub no_space : is_ascii_space (code (digit n)) ≡ false
  pub no_dollar : nat_eq (code (digit n)) 36 ≡ false

IsDigit-IsDigit : (n : Nibble) → IsDigit n
unfolding lookup
IsDigit-IsDigit n0 = record { read = refl; no_space = refl; no_dollar = refl }
IsDigit-IsDigit n1 = record { read = refl; no_space = refl; no_dollar = refl }
IsDigit-IsDigit _ = record { read = refl; no_space = refl; no_dollar = refl }

from_hex-to_hex : (bs : Bytes) → from_hex (to_hex bs) ≡ some bs
unfolding from_hex to_hex
from_hex-to_hex [] = refl
from_hex-to_hex ((high, low) ∷ rest) =
    let h = IsDigit-IsDigit high in
    let l = IsDigit-IsDigit low in rw (h.no_space, h.read, l.read, from_hex-to_hex rest) refl

no_dollar : (bs : Bytes) → has_character 36 (to_hex bs) ≡ false
unfolding to_hex
no_dollar [] = refl
no_dollar ((high, low) ∷ rest) =
    let h = IsDigit-IsDigit high in
    let l = IsDigit-IsDigit low in rw (h.no_dollar, l.no_dollar) (no_dollar rest)

compare_digest_refl : (bs : Bytes) → compare_digest bs bs ≡ true
unfolding compare_digest
compare_digest_refl [] = refl
compare_digest_refl ((high, low) ∷ rest) = ground (arith, compare_digest_refl rest)

stored_parts :
    (h : Hashing) (salt : Bytes) (password : String)
    → split_parts 36 (hash_password h salt password)
      ≡ ("pbkdf2_sha256", "310000" ∷ to_hex salt ∷ to_hex (h.pbkdf2 password salt) ∷ [])
unfolding hash_password split_parts
stored_parts h salt password =
    let digest = to_hex (h.pbkdf2 password salt) in
    let last : split_parts 36 digest ≡ (digest, []) =
      split_parts-free 36 digest (no_dollar (h.pbkdf2 password salt)) in
    let inner : split_parts 36 (concat (to_hex salt) (String.◌∷◌ "$" digest))
        ≡ (to_hex salt, digest ∷ []) =
      split_parts-concat 36 (to_hex salt) digest "$" (no_dollar salt) refl ∙ rw last refl in
    rw inner refl

verify_stored :
    (h : Hashing) (salt : Bytes) (supplied password : String)
    → verify_password h supplied (hash_password h salt password)
      ≡ compare_digest (h.pbkdf2 supplied salt) (h.pbkdf2 password salt)
unfolding verify_password
verify_stored h salt supplied password =
    rw
      (
        stored_parts h salt password,
        h.reads_iterations,
        from_hex-to_hex salt,
        from_hex-to_hex (h.pbkdf2 password salt),
      )
      refl

same_nibble-same : (a b : Nibble) → same_nibble a b ≡ true → a ≡ b
same_nibble-same a b h =
    let codes = (nat_eq_iff (code (digit a)) (code (digit b))).0 h in
    let x = IsDigit-IsDigit a in
    let y = IsDigit-IsDigit b in
    let found : some a ≡ some b = sym x.read ∙ ap (λ c. lookup c nibbles) codes ∙ y.read in cc found

compare_digest-same : (xs ys : Bytes) → compare_digest xs ys ≡ true → xs ≡ ys
unfolding compare_digest
compare_digest-same [] [] h = refl
compare_digest-same [] (y ∷ ys) h = absurd (cc)
compare_digest-same (x ∷ xs) [] h = absurd (cc)
compare_digest-same ((a, b) ∷ xs) ((c, d) ∷ ys) h =
    let p = same_nibble-same a c (ground (arith, h)) in
    let q = same_nibble-same b d (ground (arith, h)) in
    let r = compare_digest-same xs ys (ground (arith, h)) in cc (p, q, r)

-- Whatever the salt: a supplied password is verified by the text that is stored for a password exactly
-- where PBKDF2 derives the same bytes from both.
pub verifies_stored :
    (h : Hashing) (salt : Bytes) (supplied password : String)
    → (verify_password h supplied (hash_password h salt password) ≡ true)
      ↔ (h.pbkdf2 supplied salt ≡ h.pbkdf2 password salt)
verifies_stored h salt supplied password = (
  (λ e.
      compare_digest-same (h.pbkdf2 supplied salt) (h.pbkdf2 password salt)
        (sym (verify_stored h salt supplied password) ∙ e)),
  (λ e.
      verify_stored h salt supplied password
      ∙ ap (λ bs. compare_digest bs (h.pbkdf2 password salt)) e
      ∙ compare_digest_refl (h.pbkdf2 password salt)),
)

-- The interface of the registry, filled.
abbrev pub stored_credentials : Hashing → Bytes → Credentials
stored_credentials h salt = record {
  hash_password = hash_password h salt;
  verify = verify_password h;
  verify_hash = λ password. (verifies_stored h salt password password).1 refl;
}
