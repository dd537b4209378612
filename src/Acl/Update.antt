-- ===== src/Acl/Update.antt =====
-- The update of the ACL of a file: `findEntry`, `setPerms` and the loop of `main` over the entries.
use my_file.Prelude.{
  ℕ, zero, suc, ◌/◌, ◌%◌, Bool, true, false, ◌&&◌, ◌||◌, not, Option, none, some, List, [], ◌∷◌,
  ◌==◌, if◌then◌else◌,
}
use my_file.Acl.Spec.{
  Tag, acl_user_obj, acl_user, acl_group_obj, acl_group, acl_mask, acl_other, AclEntry,
  AccessControlEntry, with_bit, Names, Parsed, parsed, ◌>>=◌, parse_acl,
}

-- What the ACL library and the file system do with a list of entries: where `acl_create_entry` puts
-- the new entry, if it succeeds, the ACL that `acl_calc_mask` leaves, and whether `acl_delete_entry`,
-- `acl_valid` and `acl_set_file` succeed.
pub record Libacl : Type 0 where
  pub creates : List AclEntry → Bool
  pub place : List AclEntry → ℕ
  pub deletes : List AclEntry → Bool
  pub calc_mask : List AclEntry → Option (List AclEntry)
  pub valid : List AclEntry → Bool
  pub set_file : List AclEntry → Bool

-- the tags as numbers
abbrev pub tag_no : Tag → ℕ
tag_no acl_user_obj = 0
tag_no acl_user = 1
tag_no acl_group_obj = 2
tag_no acl_group = 3
tag_no acl_mask = 4
tag_no acl_other = 5

abbrev pub has_id : ℕ → Bool
has_id t = (t == 1) || (t == 3)

-- Two entries are for the same users: the ids count where the tag is one of a named user or group.
abbrev pub same_key : ℕ → ℕ → ℕ → ℕ → Bool
same_key t q t' q' = (t == t') && (not (has_id t) || (q == q'))

abbrev pub matches : Tag → ℕ → AclEntry → Bool
matches tag qual e = same_key (tag_no tag) qual (tag_no e.tag) e.qual

abbrev pub one_more : Option ℕ → Option ℕ
one_more none = none
one_more (some i) = some (suc i)

-- the index of the first entry with the tag and the id
unfoldable pub find_entry : List AclEntry → Tag → ℕ → Option ℕ
find_entry [] tag qual = none
find_entry (e ∷ acl) tag qual =
    let later = one_more (find_entry acl tag qual) in if matches tag qual e then some 0 else later

-- the permissions that `acl_add_perm` adds to a cleared set
abbrev pub added : ℕ → ℕ → ℕ → ℕ
added bit perms set = if (perms / bit) % 2 == 1 then with_bit bit set else set

abbrev pub perms_set : ℕ → ℕ
perms_set perms = added 1 perms (added 2 perms (added 4 perms 0))

unfoldable pub set_perms : List AclEntry → ℕ → ℕ → List AclEntry
set_perms [] i perms = []
set_perms (e ∷ acl) zero perms = record e { perms = perms_set perms } ∷ acl
set_perms (e ∷ acl) (suc i) perms = e ∷ set_perms acl i perms

unfoldable pub delete_entry : List AclEntry → ℕ → List AclEntry
delete_entry [] i = []
delete_entry (e ∷ acl) zero = acl
delete_entry (e ∷ acl) (suc i) = e ∷ delete_entry acl i

-- a new entry at an index, or at the end
unfoldable pub insert_entry : List AclEntry → ℕ → AclEntry → List AclEntry
insert_entry [] i e = e ∷ []
insert_entry (f ∷ acl) zero e = e ∷ (f ∷ acl)
insert_entry (f ∷ acl) (suc i) e = f ∷ insert_entry acl i e

-- the calls that fail
pub data AclError : Type 0 where
  acl_create_entry acl_delete_entry acl_calc_mask acl_valid acl_set_file : AclError

pub data Changed : Type 0 where
  changed : List AclEntry → Changed
  not_changed : AclError → Changed

abbrev pub perms_of : AccessControlEntry → Option ℕ → ℕ
perms_of a none = 0
perms_of a (some p) = p

abbrev pub created : Libacl → AccessControlEntry → List AclEntry → Bool → Changed
created lib a acl false = not_changed acl_create_entry
created lib a acl true = changed (
    insert_entry acl (lib.place acl)
      (record { tag = a.tag; qual = a.qual; perms = perms_set (perms_of a a.perms) }))

abbrev pub modified : Libacl → AccessControlEntry → List AclEntry → Option ℕ → Changed
modified lib a acl none = created lib a acl (lib.creates acl)
modified lib a acl (some i) = changed (set_perms acl i (perms_of a a.perms))

abbrev pub deleted : Libacl → List AclEntry → Option ℕ → Changed
deleted lib acl none = changed acl
deleted lib acl (some i) =
    if lib.deletes acl then changed (delete_entry acl i) else not_changed acl_delete_entry

-- one entry of the specification, for -m and for -x
unfoldable pub apply_entry : Libacl → Bool → AccessControlEntry → List AclEntry → Changed
unfolding find_entry insert_entry set_perms delete_entry
apply_entry lib true a acl = modified lib a acl (find_entry acl a.tag a.qual)
apply_entry lib false a acl = deleted lib acl (find_entry acl a.tag a.qual)

abbrev pub written : Libacl → List AclEntry → Changed
written lib acl =
    if lib.valid acl
    then (if lib.set_file acl then changed acl else not_changed acl_set_file)
    else not_changed acl_valid

abbrev pub with_mask : Libacl → Option (List AclEntry) → Changed
with_mask lib none = not_changed acl_calc_mask
with_mask lib (some acl) = written lib acl

abbrev pub recalculated : Libacl → Bool → Changed → Changed
recalculated lib recalc (not_changed e) = not_changed e
recalculated lib true (changed acl) = with_mask lib (lib.calc_mask acl)
recalculated lib false (changed acl) = written lib acl

-- The ACL of the file at the end, or where a call fails.
pub data Updated : Type 0 where
  finished : List AclEntry → Updated
  stopped : AclError → List AclEntry → Updated

abbrev pub continue : (List AclEntry → Updated) → List AclEntry → Changed → Updated
continue rest acl (not_changed e) = stopped e acl
continue rest acl (changed acl') = rest acl'

-- the loop over the entries, whose ACL is that of the file in front of each round
unfoldable pub update_file :
    Libacl → Bool → Bool → List AccessControlEntry → List AclEntry → Updated
unfolding apply_entry
update_file lib modify recalc [] acl = finished acl
update_file lib modify recalc (a ∷ aclist) acl =
    continue (λ acl'. update_file lib modify recalc aclist acl') acl
      (recalculated lib recalc (apply_entry lib modify a acl))

-- The update of a file by the text of the specification: permissions are required for -m.
unfoldable pub update_text :
    Names → Names → Libacl → Bool → Bool → List ℕ → List AclEntry → Parsed Updated
unfolding parse_acl update_file
update_text users groups lib modify recalc acl_spec acl = do
  aclist ← parse_acl users groups modify acl_spec
  parsed (update_file lib modify recalc aclist acl)
