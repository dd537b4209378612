-- ===== src/Acl/Tests.antt =====
-- An ACL that is printed and parsed, and an update of a file.
use my_file.Prelude.{
  ℕ, ◌≡◌, ◌≢◌, refl, Bool, true, false, ◌&&◌, Option, none, some, List, [], ◌∷◌, arith, sym, ap,
  ◌∙◌, if◌then◌else◌, length,
}
use mathlib.Core.Option.{some-injective}
use my_file.Acl.Spec.{
  acl_user_obj, acl_user, acl_group_obj, acl_group, acl_mask, acl_other, Tag, AclEntry,
  AccessControlEntry, parsed,
}
use my_file.Acl.RoundTrip.{print_acl}
use my_file.Acl.Update.{
  Libacl, find_entry, set_perms, insert_entry, perms_set, Updated, update_file, update_text,
}
use my_file.Acl.Restore.{Restored, update_text-Restored}
use my_file.Acl.Lookup.{lookup, Distinct, hit, lookup-set_perms, lookup-insert_entry}
use my_file.Acl.Effect.{MaskOnly, Shows, update_file-Shows}

abbrev no_names : List ℕ → Option ℕ
no_names s = none

abbrev owner : AclEntry
owner = record { tag = acl_user_obj; qual = 0; perms = 7 }

abbrev user_1000 : AclEntry
user_1000 = record { tag = acl_user; qual = 1000; perms = 5 }

-- A mask for everything, which is the last entry where there was none.
abbrev mask : AccessControlEntry
mask = record { tag = acl_mask; qual = 0; perms = some 7 }

abbrev masked : List AclEntry → Option ℕ → List AclEntry
masked acl none =
    insert_entry acl (length acl) (record { tag = acl_mask; qual = 0; perms = perms_set 7 })
masked acl (some i) = set_perms acl i 7

abbrev is_none : Option ℕ → Bool
is_none none = true
is_none (some i) = false

abbrev is_distinct : List AclEntry → Bool
unfolding lookup
is_distinct [] = true
is_distinct (e ∷ acl) = is_none (lookup e.tag e.qual acl) && is_distinct acl

abbrev libacl : Libacl
libacl = record {
  creates = λ acl. true;
  place = λ acl. length acl;
  deletes = λ acl. true;
  calc_mask = λ acl. some (masked acl (find_entry acl acl_mask 0));
  valid = is_distinct;
  set_file = λ acl. true;
}

no_hit : (tag : Tag) (qual : ℕ) → tag ≢ acl_mask → hit tag qual mask ≡ false
no_hit acl_mask qual other = absurd (other refl)
no_hit acl_user_obj qual other = refl
no_hit acl_user qual other = refl
no_hit acl_group_obj qual other = refl
no_hit acl_group qual other = refl
no_hit acl_other qual other = refl

masked-MaskOnly :
    (tag : Tag) (qual : ℕ) (acl : List AclEntry) (found : Option ℕ)
    → tag ≢ acl_mask
    → find_entry acl acl_mask 0 ≡ found
    → lookup tag qual (masked acl found) ≡ lookup tag qual acl
unfolding lookup find_entry insert_entry set_perms
masked-MaskOnly tag qual acl none other f =
    lookup-insert_entry tag qual mask acl (length acl) 7 f
    ∙ ap (λ b. if b then some (perms_set 7) else lookup tag qual acl) (no_hit tag qual other)
masked-MaskOnly tag qual acl (some i) other f =
    lookup-set_perms tag qual mask acl i 7 f
    ∙ ap (λ b. if b then some (perms_set 7) else lookup tag qual acl) (no_hit tag qual other)

libacl-MaskOnly : MaskOnly libacl
unfolding lookup
libacl-MaskOnly acl acl' tag qual other c =
    let same : acl' ≡ masked acl (find_entry acl acl_mask 0) =
      sym (some-injective (masked acl (find_entry acl acl_mask 0)) acl' c) in
    ap (lookup tag qual) same ∙ masked-MaskOnly tag qual acl (find_entry acl acl_mask 0) other refl

both_true : (b c : Bool) → (b && c) ≡ true → (b ≡ true) × (c ≡ true)
both_true b c h = grind arith

none_found : (o : Option ℕ) → is_none o ≡ true → o ≡ none
none_found none h = refl
none_found (some i) h = cc

libacl-FindsDuplicates : (acl : List AclEntry) → is_distinct acl ≡ true → Distinct acl
unfolding lookup
libacl-FindsDuplicates [] v = tt
libacl-FindsDuplicates (e ∷ acl) v =
    let both = both_true (is_none (lookup e.tag e.qual acl)) (is_distinct acl) v in
    (none_found (lookup e.tag e.qual acl) both.0, libacl-FindsDuplicates acl both.1)

update_file-Shows_example :
    Shows libacl true true acl_user 1000
      ((record { tag = acl_user; qual = 1000; perms = some 4 }) ∷ [])
      (some 5)
      (update_file libacl true true
        ((record { tag = acl_user; qual = 1000; perms = some 4 }) ∷ [])
        (owner ∷ (user_1000 ∷ [])))
unfolding find_entry lookup
update_file-Shows_example =
    update_file-Shows libacl acl_user 1000 true libacl-FindsDuplicates libacl-MaskOnly (λ e. cc)
      true ((record { tag = acl_user; qual = 1000; perms = some 4 }) ∷ [])
      (owner ∷ (user_1000 ∷ [])) (refl, (refl, tt))

-- the permissions of user 1000 that are given to a file which has an entry for the owner
update_text-Restored_example :
    (u : Updated) × ((update_text no_names no_names libacl true true
          (print_acl owner (user_1000 ∷ []))
          (owner ∷ [])
        ≡ parsed u)
      × Restored libacl true acl_user 1000 (owner ∷ (user_1000 ∷ [])) none u)
unfolding find_entry lookup
update_text-Restored_example =
    update_text-Restored no_names no_names libacl true owner (user_1000 ∷ []) (owner ∷ []) acl_user
      1000 libacl-FindsDuplicates libacl-MaskOnly (λ e. cc) (omega arith)
      ((refl, omega arith), ((omega arith, omega arith), tt)) (refl, (refl, tt)) (refl, tt)
