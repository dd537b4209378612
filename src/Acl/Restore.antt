-- ===== src/Acl/Restore.antt =====
-- The ACL of one file that is printed and given to another with -m.
use my_file.Prelude.{
  ℕ, ◌<◌, ◌≡◌, ◌≢◌, refl, ap, sym, ◌∙◌, Bool, true, false, Option, none, some, List, [], ◌∷◌, arith,
  if◌then◌else◌, length,
}
use my_file.Acl.Spec.{Tag, acl_mask, AclEntry, Names, max_entries, parsed, ◌>>=◌}
use my_file.Acl.RoundTrip.{
  print_acl, ace_of, aces_of, InForm, is_named, AllInForm, parse_acl-print_acl,
}
use my_file.Acl.Update.{
  Libacl, find_entry, perms_set, Updated, finished, stopped, update_file, update_text,
}
use my_file.Acl.Lookup.{lookup, Distinct, hit, lookup-gone, turned}
use my_file.Acl.Effect.{
  MaskOnly, FindsDuplicates, Stops, Shows, after_entry, after_entries, update_file-Shows,
}

-- the permissions in the printed ACL, and else the old ones
abbrev pub or_old : Option ℕ → Option ℕ → Option ℕ
or_old none old = old
or_old (some p) old = some p

abbrev pub Restored : Libacl → Bool → Tag → ℕ → List AclEntry → Option ℕ → Updated → Type 0
unfolding lookup
Restored lib recalc tag qual es old (finished file) =
    lookup tag qual file ≡ or_old (lookup tag qual es) old
Restored lib recalc tag qual es old (stopped e file) =
    Stops lib true recalc tag qual (aces_of es) old e file

perms_set-small : (p : ℕ) → p < 8 → perms_set p ≡ p
perms_set-small p h = ground arith

InForm-small : (named : Bool) (qual p : ℕ) → InForm named qual p → p < 8
InForm-small true qual p v = v.1
InForm-small false qual p v = v.1

after_first :
    (b : Bool) (p : ℕ) (rest old : Option ℕ)
    → rest ≡ (if b then none else rest)
    → or_old rest (if b then some p else old) ≡ or_old (if b then some p else rest) old
after_first true p rest old h = rw h refl
after_first false p rest old h = refl

after_entries-aces_of :
    (tag : Tag) (qual : ℕ) (es : List AclEntry) (old : Option ℕ)
    → AllInForm es
    → Distinct es
    → after_entries true tag qual (aces_of es) old ≡ or_old (lookup tag qual es) old
unfolding lookup find_entry
after_entries-aces_of tag qual [] old v d = refl
after_entries-aces_of tag qual (e ∷ es) old v d =
    after_entries-aces_of tag qual es (after_entry true tag qual (ace_of e) old) v.1 d.1
    ∙ (ap (λ p. or_old (lookup tag qual es) (if hit tag qual (ace_of e) then some p else old))
          (perms_set-small e.perms (InForm-small (is_named e.tag) e.qual e.perms v.0))
        ∙ (after_first (hit tag qual (ace_of e)) e.perms (lookup tag qual es) old
              (lookup-gone tag qual (ace_of e) es d.0)
            ∙ ap (λ b. or_old (if b then some e.perms else lookup tag qual es) old)
                (sym (turned tag qual (ace_of e)))))

Shows-Restored :
    (lib : Libacl) (recalc : Bool) (tag : Tag) (qual : ℕ) (es : List AclEntry) (old : Option ℕ)
    (u : Updated)
    → AllInForm es
    → Distinct es
    → Shows lib true recalc tag qual (aces_of es) old u
    → Restored lib recalc tag qual es old u
unfolding lookup
Shows-Restored lib recalc tag qual es old (finished file) v d h =
    h ∙ after_entries-aces_of tag qual es old v d
Shows-Restored lib recalc tag qual es old (stopped e file) v d h = h

-- For a library that finds entries for the same users and whose mask changes no other entry, a
-- printed ACL of at most 10000 entries of three permission bits, with 32-bit ids other than -1 for
-- named users and groups, no two of them for the same users, and a file whose ACL has no two
-- either: acl_update -m parses the printed text, and the file then has the printed permissions for
-- a tag other than the mask and an id that the text has, and the permissions of before for others,
-- or a call of the library fails on the entries that the round of some printed entry has for it,
-- and the file has the effect of all printed entries in front of that.
pub update_text-Restored :
    (users groups : Names) (lib : Libacl) (recalc : Bool) (e : AclEntry) (es : List AclEntry)
    (acl : List AclEntry) (tag : Tag) (qual : ℕ)
    → FindsDuplicates lib
    → MaskOnly lib
    → tag ≢ acl_mask
    → length es < max_entries
    → AllInForm (e ∷ es)
    → Distinct (e ∷ es)
    → Distinct acl
    → (u : Updated) × ((update_text users groups lib true recalc (print_acl e es) acl ≡ parsed u)
        × Restored lib recalc tag qual (e ∷ es) (lookup tag qual acl) u)
unfolding update_text lookup
update_text-Restored users groups lib recalc e es acl tag qual duplicates mask_only other few v d
      d' =
    (
      update_file lib true recalc (aces_of (e ∷ es)) acl,
      (
        ap (λ r. r >>= λ aclist. parsed (update_file lib true recalc aclist acl))
            (parse_acl-print_acl users groups e es few v),
        Shows-Restored lib recalc tag qual (e ∷ es) (lookup tag qual acl)
            (update_file lib true recalc (aces_of (e ∷ es)) acl) v d
            (update_file-Shows lib tag qual recalc duplicates mask_only other true
              (aces_of (e ∷ es)) acl d'),
      ),
    )
