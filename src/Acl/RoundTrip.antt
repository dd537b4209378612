-- ===== src/Acl/RoundTrip.antt =====
-- ACLs that are printed and parsed.
use my_file.Prelude.{
  ℕ, zero, suc, ◌/◌, ◌%◌, ◌^◌, ◌≤◌, ◌<◌, ◌≡◌, refl, ap, ◌∙◌, Bool, true, false, some, List, [], ◌∷◌,
  ◌++◌, arith, ◌==◌, if◌then◌else◌, length, pos,
}
use my_file.CLib.Strings.Laws.{Lacks, Lacks-append, cut_at-append, cut_at-Lacks}
use my_file.CLib.Strtoul.{digit_value}
use my_file.CLib.Numbers.{is_digit}
use my_file.CLib.Strtol.{strtol}
use my_file.CLib.Strtol.RoundTrip.{numeral, numeral-cons, strtol-numeral, Lacks-numeral}
use my_file.Acl.Spec.{
  AclEntry, Tag, acl_user_obj, acl_user, acl_group_obj, acl_group, acl_mask, acl_other,
  AccessControlEntry, Parsed, parsed, ◌>>=◌, Names, minus_one, id_from_name, perms_loop, has_qual,
  parse_cut, parse_fields, parse_entry_spec, parse_loop, at_comma, parse_acl, max_entries,
}

abbrev pub is_named : Tag → Bool
is_named acl_user = true
is_named acl_group = true
is_named acl_user_obj = false
is_named acl_group_obj = false
is_named acl_mask = false
is_named acl_other = false

abbrev pub letter : Tag → ℕ
letter acl_user_obj = b'u'
letter acl_user = b'u'
letter acl_group_obj = b'g'
letter acl_group = b'g'
letter acl_mask = b'm'
letter acl_other = b'o'

abbrev pub flag : ℕ → ℕ → ℕ → ℕ
flag bit c perms = if (perms / bit) % 2 == 1 then c else b'-'

-- the permissions as "rwx" with dashes, a letter for the tag, and the id of a named user or group
abbrev pub print_perms : ℕ → List ℕ
print_perms p = flag 4 b'r' p ∷ (flag 2 b'w' p ∷ (flag 1 b'x' p ∷ []))

abbrev pub print_qual : Bool → ℕ → List ℕ
print_qual true n = numeral 10 (pos n)
print_qual false n = []

abbrev pub print_entry : Tag → ℕ → ℕ → List ℕ
print_entry tag qual p =
    letter tag ∷ (b':' ∷ (print_qual (is_named tag) qual ++ (b':' ∷ print_perms p)))

perms_loop-print_perms : (p : ℕ) → p < 8 → perms_loop 0 (print_perms p) ≡ parsed p
unfolding perms_loop
perms_loop-print_perms p h = ground arith

id_from_name-cons :
    (names : Names) (s : List ℕ) (c : ℕ) (cs : List ℕ) (n : ℕ)
    → s ≡ c ∷ cs
    → strtol 10 s ≡ record { value = pos n; rest = []; erange = false }
    → n < 2 ^ 32
    → id_from_name names s ≡ n
unfolding id_from_name
id_from_name-cons names [] c cs n e r h = cc
id_from_name-cons names (d ∷ ds) c cs n e r h = rw r (omega arith)

id_from_name-numeral :
    (names : Names) (n : ℕ) → n < minus_one → id_from_name names (numeral 10 (pos n)) ≡ n
id_from_name-numeral names n h =
    let (c, cs, e) = numeral-cons 10 (omega arith) (omega arith) (pos n) in
    id_from_name-cons names (numeral 10 (pos n)) c cs n e
      (strtol-numeral 10 (omega arith) (omega arith) (pos n) (omega arith)) (omega arith)

Lacks-qual : (c : ℕ) (b : Bool) (n : ℕ) → 16 ≤ digit_value c → Lacks c (print_qual b n)
Lacks-qual c true n h = Lacks-numeral 10 (omega arith) (omega arith) c n h
Lacks-qual c false n h = tt

colon_no_digit : 16 ≤ digit_value b':'
unfolding digit_value is_digit
colon_no_digit = omega arith

comma_no_digit : 16 ≤ digit_value b','
unfolding digit_value is_digit
comma_no_digit = omega arith

has_qual-cons :
    (s : List ℕ) (c : ℕ) (cs ps : List ℕ) → s ≡ c ∷ cs → Lacks b':' s → has_qual (s ++ ps) ≡ true
has_qual-cons [] c cs ps e l = cc
has_qual-cons (d ∷ ds) c cs ps e l = rw l.0 refl

has_qual-print_qual :
    (b : Bool) (n : ℕ) (ps : List ℕ) → has_qual (print_qual b n ++ (b':' ∷ ps)) ≡ b
has_qual-print_qual true n ps =
    let (c, cs, e) = numeral-cons 10 (omega arith) (omega arith) (pos n) in
    has_qual-cons (numeral 10 (pos n)) c cs (b':' ∷ ps) e (Lacks-qual b':' true n colon_no_digit)
has_qual-print_qual false n ps = refl

-- an entry of an ACL
abbrev pub ace_of : AclEntry → AccessControlEntry
ace_of e = record { tag = e.tag; qual = e.qual; perms = some e.perms }

-- The permissions have three bits; an id is one of 32 bits that is not -1, and an entry for nobody
-- in particular has none.
abbrev pub InForm : Bool → ℕ → ℕ → Type 0
InForm true qual p = (qual < minus_one) × (p < 8)
InForm false qual p = (qual ≡ 0) × (p < 8)

parse_fields-tag :
    (users groups : Names) (tag : Tag) (qual p : ℕ)
    → InForm (is_named tag) qual p
    → (rest : List ℕ) → has_qual rest ≡ is_named tag
    → parse_fields users groups true
        (letter tag ∷ [])
        rest
        (some (print_qual (is_named tag) qual, print_perms p))
      ≡ parsed (record { tag = tag; qual = qual; perms = some p })
parse_fields-tag users groups acl_user_obj qual p v rest h =
    rw (h, perms_loop-print_perms p v.1, v.0) refl
parse_fields-tag users groups acl_user qual p v rest h =
    let d : (qual == minus_one) ≡ false = ground arith in
    rw (h, id_from_name-numeral users qual v.0, d, perms_loop-print_perms p v.1) refl
parse_fields-tag users groups acl_group_obj qual p v rest h =
    rw (h, perms_loop-print_perms p v.1, v.0) refl
parse_fields-tag users groups acl_group qual p v rest h =
    let d : (qual == minus_one) ≡ false = ground arith in
    rw (h, id_from_name-numeral groups qual v.0, d, perms_loop-print_perms p v.1) refl
parse_fields-tag users groups acl_mask qual p v rest h = rw (perms_loop-print_perms p v.1, v.0) refl
parse_fields-tag users groups acl_other qual p v rest h =
    rw (perms_loop-print_perms p v.1, v.0) refl

letter_no_colon : (tag : Tag) → (letter tag == b':') ≡ false
letter_no_colon acl_user_obj = refl
letter_no_colon acl_user = refl
letter_no_colon acl_group_obj = refl
letter_no_colon acl_group = refl
letter_no_colon acl_mask = refl
letter_no_colon acl_other = refl

letter_no_comma : (tag : Tag) → (letter tag == b',') ≡ false
letter_no_comma acl_user_obj = refl
letter_no_comma acl_user = refl
letter_no_comma acl_group_obj = refl
letter_no_comma acl_group = refl
letter_no_comma acl_mask = refl
letter_no_comma acl_other = refl

abbrev pub print_ace : AclEntry → List ℕ
print_ace e = print_entry e.tag e.qual e.perms

abbrev pub IsInForm : AclEntry → Type 0
IsInForm e = InForm (is_named e.tag) e.qual e.perms

parse_entry_spec-print_ace :
    (users groups : Names) (e : AclEntry)
    → IsInForm e
    → parse_entry_spec users groups true (print_ace e) ≡ parsed (ace_of e)
unfolding parse_entry_spec
parse_entry_spec-print_ace users groups e v =
    let q : List ℕ = print_qual (is_named e.tag) e.qual in
    let rest : List ℕ = q ++ (b':' ∷ print_perms e.perms) in
    ap (parse_cut users groups true)
      (cut_at-append b':' (letter e.tag ∷ []) rest (letter_no_colon e.tag, tt))
    ∙ (ap (parse_fields users groups true (letter e.tag ∷ []) rest) (
          cut_at-append b':' q (print_perms e.perms)
            (Lacks-qual b':' (is_named e.tag) e.qual colon_no_digit))
        ∙ parse_fields-tag users groups e.tag e.qual e.perms v rest
            (has_qual-print_qual (is_named e.tag) e.qual (print_perms e.perms)))

flag_no_comma : (bit c p : ℕ) → (c == b',') ≡ false → (flag bit c p == b',') ≡ false
flag_no_comma bit c p h = ground arith

Lacks-print_ace : (e : AclEntry) → Lacks b',' (print_ace e)
Lacks-print_ace e = (
  letter_no_comma e.tag,
  (
    refl,
    Lacks-append b',' (print_qual (is_named e.tag) e.qual) (b':' ∷ print_perms e.perms)
        (Lacks-qual b',' (is_named e.tag) e.qual comma_no_digit)
        (
          refl,
          (
            flag_no_comma 4 b'r' e.perms refl,
            (flag_no_comma 2 b'w' e.perms refl, (flag_no_comma 1 b'x' e.perms refl, tt)),
          ),
        ),
  ),
)

-- entries with commas between them
abbrev pub print_acl : AclEntry → List AclEntry → List ℕ
print_acl e [] = print_ace e
print_acl e (f ∷ es) = print_ace e ++ (b',' ∷ print_acl f es)

abbrev pub AllInForm : List AclEntry → Type 0
AllInForm [] = Unit
AllInForm (e ∷ es) = IsInForm e × AllInForm es

abbrev pub aces_of : List AclEntry → List AccessControlEntry
aces_of [] = []
aces_of (e ∷ es) = ace_of e ∷ aces_of es

parse_loop-print_acl :
    (users groups : Names) (left : ℕ) (e : AclEntry) (es : List AclEntry)
    → length es < left
    → AllInForm (e ∷ es)
    → parse_loop users groups true left (print_acl e es) ≡ parsed (aces_of (e ∷ es))
unfolding parse_loop
parse_loop-print_acl users groups zero e es h v = absurd (omega arith)
parse_loop-print_acl users groups (suc left) e [] h v =
    ap (at_comma users groups true (print_ace e) (λ rest. parse_loop users groups true left rest))
      (cut_at-Lacks b',' (print_ace e) (Lacks-print_ace e))
    ∙ ap (λ r. r >>= λ a. parsed (a ∷ [])) (parse_entry_spec-print_ace users groups e v.0)
parse_loop-print_acl users groups (suc left) e (f ∷ es) h v =
    let others : List ℕ → Parsed (List AccessControlEntry) =
      λ rest. parse_loop users groups true left rest in
    ap (at_comma users groups true (print_acl e (f ∷ es)) others)
      (cut_at-append b',' (print_ace e) (print_acl f es) (Lacks-print_ace e))
    ∙ (ap (λ r. r >>= λ a. (others (print_acl f es) >>= λ as'. parsed (a ∷ as')))
          (parse_entry_spec-print_ace users groups e v.0)
        ∙ ap (λ r. r >>= λ as'. parsed (ace_of e ∷ as'))
            (parse_loop-print_acl users groups left f es (omega arith) v.1))

-- Whatever the names of users and groups, the text of at most 10000 entries of three permission
-- bits, with 32-bit ids other than -1 for named users and groups and none for others, is parsed
-- with permissions required to these entries in order.
pub parse_acl-print_acl :
    (users groups : Names) (e : AclEntry) (es : List AclEntry)
    → length es < max_entries
    → AllInForm (e ∷ es)
    → parse_acl users groups true (print_acl e es) ≡ parsed (aces_of (e ∷ es))
unfolding parse_acl
parse_acl-print_acl users groups e es h v = parse_loop-print_acl users groups max_entries e es h v
