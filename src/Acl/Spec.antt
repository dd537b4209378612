-- ===== src/Acl/Spec.antt =====
-- The text form of an ACL: `parseEntrySpec` and `parseACL`, with the names of users and groups.
use my_file.Prelude.{
  ℕ, zero, suc, ◌+◌, ◌-◌, ◌/◌, ◌%◌, ◌^◌, Bool, true, false, ◌||◌, not, Option, none, some, List, [],
  ◌∷◌, ◌==◌, if◌then◌else◌, bytes_eq, ℤ, pos, negsuc,
}
use my_file.CLib.Strings.{cut_at}
use my_file.CLib.Strtol.{strtol}

pub data Tag : Type 0 where
  acl_user_obj acl_user acl_group_obj acl_group acl_mask acl_other : Tag

-- `perms` is not set where no permissions were given.
pub record AccessControlEntry : Type 0 where
  pub tag : Tag
  pub qual : ℕ
  pub perms : Option ℕ

-- an entry of an ACL
pub record AclEntry : Type 0 where
  pub tag : Tag
  pub qual : ℕ
  pub perms : ℕ

-- the messages of the parser
pub data BadSpec : Type 0 where
  missing_colon perms_given perms_missing bad_tag bad_user bad_group too_many : BadSpec
  bad_perm : ℕ → BadSpec

pub data Parsed (A : Type 0) : Type 0 where
  parsed : A → Parsed A
  refused : BadSpec → Parsed A

infixl 5 ◌>>=◌ ◌>>◌
abbrev pub ◌>>=◌ : {A B : Type 0} → Parsed A → (A → Parsed B) → Parsed B
parsed a >>= f = f a
refused b >>= f = refused b

abbrev pub ◌>>◌ : {B : Type 0} → Parsed (Unit {0}) → Parsed B → Parsed B
a >> b = a >>= λ u. b

-- the users or the groups that the system knows
abbrev pub Names : Type 0
Names = List ℕ → Option ℕ

abbrev pub minus_one : ℕ
minus_one = 2 ^ 32 - 1

-- a long as an id of 32 bits
abbrev pub to_id : ℤ → ℕ
to_id (pos n) = n % 2 ^ 32
to_id (negsuc n) = minus_one - n % 2 ^ 32

abbrev pub is_empty : List ℕ → Bool
is_empty [] = true
is_empty (c ∷ cs) = false

abbrev pub or_minus_one : Option ℕ → ℕ
or_minus_one none = minus_one
or_minus_one (some n) = n

-- `userIdFromName` and `groupIdFromName`
unfoldable pub id_from_name : Names → List ℕ → ℕ
unfolding strtol
id_from_name names [] = minus_one
id_from_name names (c ∷ cs) =
    let r = strtol 10 (c ∷ cs) in
    if is_empty r.rest then to_id r.value else or_minus_one (names (c ∷ cs))

abbrev pub has_qual : List ℕ → Bool
has_qual [] = false
has_qual (c ∷ cs) = not (c == b':')

abbrev pub has_perms : Option (List ℕ × List ℕ) → Bool
has_perms none = false
has_perms (some (q, ps)) = not (is_empty ps)

-- the texts in front of the second colon and behind it
abbrev pub qualifier : List ℕ → Option (List ℕ × List ℕ) → List ℕ
qualifier rest none = rest
qualifier rest (some (q, ps)) = q

abbrev pub perms_text : Option (List ℕ × List ℕ) → List ℕ
perms_text none = []
perms_text (some (q, ps)) = ps

-- whether permissions are given, and whether they are required
abbrev pub check_perms : Bool → Bool → Parsed (Unit {0})
check_perms true false = refused perms_given
check_perms false true = refused perms_missing
check_perms true true = parsed tt
check_perms false false = parsed tt

abbrev pub is_one_of : List ℕ → List ℕ → List ℕ → Bool
is_one_of s a b = bytes_eq s a || bytes_eq s b

abbrev pub user_text : List ℕ
user_text = b'u' ∷ b's' ∷ b'e' ∷ b'r' ∷ []

abbrev pub group_text : List ℕ
group_text = b'g' ∷ b'r' ∷ b'o' ∷ b'u' ∷ b'p' ∷ []

abbrev pub other_text : List ℕ
other_text = b'o' ∷ b't' ∷ b'h' ∷ b'e' ∷ b'r' ∷ []

abbrev pub mask_text : List ℕ
mask_text = b'm' ∷ b'a' ∷ b's' ∷ b'k' ∷ []

abbrev pub parse_tag : List ℕ → Bool → Parsed Tag
parse_tag s with_qual =
    if is_one_of s (b'u' ∷ []) user_text
    then parsed (if with_qual then acl_user else acl_user_obj)
    else if is_one_of s (b'g' ∷ []) group_text
    then parsed (if with_qual then acl_group else acl_group_obj)
    else if is_one_of s (b'o' ∷ []) other_text
    then parsed acl_other
    else if is_one_of s (b'm' ∷ []) mask_text
    then parsed acl_mask
    else refused bad_tag

abbrev pub found_id : ℕ → BadSpec → Parsed ℕ
found_id id bad = if id == minus_one then refused bad else parsed id

-- the id of a named user or group
abbrev pub parse_qual : Names → Names → Tag → List ℕ → Parsed ℕ
parse_qual users groups acl_user q = found_id (id_from_name users q) bad_user
parse_qual users groups acl_group q = found_id (id_from_name groups q) bad_group
parse_qual users groups acl_user_obj q = parsed 0
parse_qual users groups acl_group_obj q = parsed 0
parse_qual users groups acl_mask q = parsed 0
parse_qual users groups acl_other q = parsed 0

-- `perms |= bit`, for a power of two
abbrev pub with_bit : ℕ → ℕ → ℕ
with_bit bit perms = if (perms / bit) % 2 == 1 then perms else perms + bit

abbrev pub perm_of : ℕ → ℕ → Parsed ℕ
perm_of c perms =
    if c == b'r'
    then parsed (with_bit 4 perms)
    else if c == b'w'
    then parsed (with_bit 2 perms)
    else if c == b'x'
    then parsed (with_bit 1 perms)
    else if c == b'-'
    then parsed perms
    else refused (bad_perm c)

unfoldable pub perms_loop : ℕ → List ℕ → Parsed ℕ
perms_loop perms [] = parsed perms
perms_loop perms (c ∷ cs) = do perms' ← perm_of c perms; perms_loop perms' cs

abbrev pub parse_perms : Bool → List ℕ → Parsed (Option ℕ)
parse_perms false ps = parsed none
parse_perms true ps = do perms ← perms_loop 0 ps; parsed (some perms)

-- the text in front of the first colon, the text behind it, and that cut at the next one
abbrev pub parse_fields :
    Names → Names → Bool → List ℕ → List ℕ → Option (List ℕ × List ℕ) → Parsed AccessControlEntry
parse_fields users groups perms_reqd tag_text rest second = do
  check_perms (has_perms second) perms_reqd
  tag ← parse_tag tag_text (has_qual rest)
  qual ← parse_qual users groups tag (qualifier rest second)
  perms ← parse_perms (has_perms second) (perms_text second)
  parsed (record { tag = tag; qual = qual; perms = perms })

abbrev pub parse_cut : Names → Names → Bool → Option (List ℕ × List ℕ) → Parsed AccessControlEntry
parse_cut users groups perms_reqd none = refused missing_colon
parse_cut users groups perms_reqd (some (tag_text, rest)) =
    parse_fields users groups perms_reqd tag_text rest (cut_at b':' rest)

unfoldable pub parse_entry_spec : Names → Names → Bool → List ℕ → Parsed AccessControlEntry
unfolding cut_at perms_loop id_from_name
parse_entry_spec users groups perms_reqd entry_str =
    parse_cut users groups perms_reqd (cut_at b':' entry_str)

abbrev pub max_entries : ℕ
max_entries = 10000

-- the entry in front of a comma and those behind it, or the last entry
abbrev pub at_comma :
    Names
    → Names
    → Bool
    → List ℕ
    → (List ℕ → Parsed (List AccessControlEntry))
    → Option (List ℕ × List ℕ)
    → Parsed (List AccessControlEntry)
at_comma users groups reqd next_entry others none = do
  e ← parse_entry_spec users groups reqd next_entry
  parsed (e ∷ [])
at_comma users groups reqd next_entry others (some (text, rest)) = do
  e ← parse_entry_spec users groups reqd text
  es ← others rest
  parsed (e ∷ es)

-- the loop, with how many more entries the array takes
unfoldable pub parse_loop : Names → Names → Bool → ℕ → List ℕ → Parsed (List AccessControlEntry)
unfolding parse_entry_spec cut_at
parse_loop users groups reqd zero next_entry = refused too_many
parse_loop users groups reqd (suc left) next_entry =
    at_comma users groups reqd next_entry (λ rest. parse_loop users groups reqd left rest)
      (cut_at b',' next_entry)

unfoldable pub parse_acl : Names → Names → Bool → List ℕ → Parsed (List AccessControlEntry)
unfolding parse_loop
parse_acl users groups reqd acl_str = parse_loop users groups reqd max_entries acl_str
