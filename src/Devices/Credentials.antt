-- ===== src/Devices/Credentials.antt =====
-- devices/credentials.py: the stored form of a password, `algorithm$iterations$salt$digest`. A byte
-- stands as its two hexadecimal digits. PBKDF2 with its 310 000 rounds and Python's reading of an
-- integer are parameters.
pub mod Stored
use Prim.Native.Char.{Char, code}
use industrial_equipment_mon.Prelude.{
  ℕ, ◌≡◌, String, Bool, true, false, ◌&&◌, ◌||◌, not, Option, none, some, List, [], ◌∷◌, nat_eq,
  str_eq, leb, eq_nat, if◌then◌else◌,
}
use industrial_equipment_mon.Prelude.Table.{Table, lookup}
use industrial_equipment_mon.Prelude.Texts.{concat, split_parts}

pub data Nibble : Type 0 where
  n0 n1 n2 n3 n4 n5 n6 n7 n8 n9 na nb nc nd ne nf : Nibble

abbrev pub Byte : Type 0
Byte = Nibble × Nibble

abbrev pub Bytes : Type 0
Bytes = List Byte

abbrev pub digit : Nibble → Char
digit n0 = "0"
digit n1 = "1"
digit n2 = "2"
digit n3 = "3"
digit n4 = "4"
digit n5 = "5"
digit n6 = "6"
digit n7 = "7"
digit n8 = "8"
digit n9 = "9"
digit na = "a"
digit nb = "b"
digit nc = "c"
digit nd = "d"
digit ne = "e"
digit nf = "f"

-- The digits that `bytes.fromhex` reads, small and large.
abbrev pub nibbles : Table ℕ Nibble
nibbles =
    (48, n0)
    ∷ (49, n1)
    ∷ (50, n2)
    ∷ (51, n3)
    ∷ (52, n4)
    ∷ (53, n5)
    ∷ (54, n6)
    ∷ (55, n7)
    ∷ (56, n8)
    ∷ (57, n9)
    ∷ (97, na)
    ∷ (98, nb)
    ∷ (99, nc)
    ∷ (100, nd)
    ∷ (101, ne)
    ∷ (102, nf)
    ∷ (65, na)
    ∷ (66, nb)
    ∷ (67, nc)
    ∷ (68, nd)
    ∷ (69, ne)
    ∷ (70, nf)
    ∷ []

unfoldable pub to_hex : Bytes → String
to_hex [] = ""
to_hex ((high, low) ∷ rest) = String.◌∷◌ (digit high) (String.◌∷◌ (digit low) (to_hex rest))

-- ASCII white space, which `bytes.fromhex` passes over between bytes.
abbrev pub is_ascii_space : ℕ → Bool
is_ascii_space c = leb 9 c && leb c 13 || nat_eq c 32

abbrev pub add_byte : Option Nibble → Option Nibble → Option Bytes → Option Bytes
add_byte (some high) (some low) (some rest) = some ((high, low) ∷ rest)
add_byte _ _ _ = none

-- `none` is the ValueError.
unfoldable pub from_hex : String → Option Bytes
from_hex String.[] = some []
from_hex (String.◌∷◌ c String.[]) = if is_ascii_space (code c) then some [] else none
from_hex (String.◌∷◌ c (String.◌∷◌ d s)) =
    let after = from_hex (String.◌∷◌ d s) in
    let rest = from_hex s in
    if is_ascii_space (code c)
    then after
    else add_byte (lookup (code c) nibbles) (lookup (code d) nibbles) rest

abbrev pub same_nibble : Nibble → Nibble → Bool
same_nibble a b = nat_eq (code (digit a)) (code (digit b))

-- `hmac.compare_digest`
unfoldable pub compare_digest : Bytes → Bytes → Bool
compare_digest [] [] = true
compare_digest ((a, b) ∷ xs) ((c, d) ∷ ys) =
    same_nibble a c && same_nibble b d && compare_digest xs ys
compare_digest _ _ = false

pub record Hashing : Type 0 where
  pub pbkdf2 : String → Bytes → Bytes
  pub int : String → Option ℕ
  pub reads_iterations : int "310000" ≡ some 310000

-- The salt is new for each password.
unfoldable pub hash_password : Hashing → Bytes → String → String
unfolding to_hex
hash_password h salt password = concat "pbkdf2_sha256" (
    concat "$" (
      concat "310000"
        (concat "$" (concat (to_hex salt) (concat "$" (to_hex (h.pbkdf2 password salt)))))))

abbrev pub is_iterations : Option ℕ → Bool
is_iterations none = false
is_iterations (some n) = nat_eq n 310000

abbrev pub compare_stored : Bytes → Option Bytes → Bool
compare_stored actual none = false
compare_stored actual (some stored) = compare_digest actual stored

abbrev pub verify_digest : Hashing → String → Option Bytes → String → Bool
verify_digest h password none digest = false
verify_digest h password (some salt) digest =
    compare_stored (h.pbkdf2 password salt) (from_hex digest)

abbrev pub verify_parts : Hashing → String → String × List String → Bool
verify_parts h password (algorithm, iterations ∷ salt ∷ digest ∷ []) =
    str_eq algorithm "pbkdf2_sha256"
    && is_iterations (h.int iterations)
    && verify_digest h password (from_hex salt) digest
verify_parts h password (algorithm, _) = false

-- A stored text of another form is never verified.
unfoldable pub verify_password : Hashing → String → String → Bool
unfolding from_hex compare_digest
verify_password h password stored = verify_parts h password (split_parts 36 stored)
