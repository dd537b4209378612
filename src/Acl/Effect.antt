-- ===== src/Acl/Effect.antt =====
-- What the loop of `main` leaves in the ACL of the file for each user and group.
use my_file.Prelude.{
  ℕ, ◌≡◌, ◌≢◌, refl, sym, ap, ◌∙◌, Bool, true, false, Option, none, some, List, [], ◌∷◌, ◌++◌,
  if◌then◌else◌,
}
use mathlib.Core.Path.{subst}
use my_file.Acl.Spec.{Tag, acl_mask, AclEntry, AccessControlEntry}
use my_file.Acl.Update.{
  Libacl, find_entry, perms_set, set_perms, delete_entry, insert_entry, AclError, Changed, changed,
  not_changed, perms_of, created, modified, deleted, apply_entry, with_mask, recalculated, Updated,
  finished, stopped, continue, update_file, acl_create_entry, acl_delete_entry, acl_calc_mask,
  acl_valid, acl_set_file,
}
use my_file.Acl.Lookup.{
  lookup, Distinct, hit, lookup-set_perms, lookup-insert_entry, lookup-find_entry,
  lookup-delete_entry,
}

-- `acl_calc_mask` changes no other entry.
abbrev pub MaskOnly : Libacl → Type 0
unfolding lookup
MaskOnly lib =
    (acl acl' : List AclEntry) (tag : Tag) (qual : ℕ)
    → tag ≢ acl_mask
    → lib.calc_mask acl ≡ some acl'
    → lookup tag qual acl' ≡ lookup tag qual acl

-- `acl_valid` finds entries for the same users.
abbrev pub FindsDuplicates : Libacl → Type 0
FindsDuplicates lib = (acl : List AclEntry) → lib.valid acl ≡ true → Distinct acl

-- what an entry of the specification makes of the permissions for the tag and the id
abbrev pub after_entry : Bool → Tag → ℕ → AccessControlEntry → Option ℕ → Option ℕ
after_entry true tag qual a old =
    if hit tag qual a then some (perms_set (perms_of a a.perms)) else old
after_entry false tag qual a old = if hit tag qual a then none else old

abbrev pub after_entries : Bool → Tag → ℕ → List AccessControlEntry → Option ℕ → Option ℕ
after_entries modify tag qual [] old = old
after_entries modify tag qual (a ∷ aclist) old =
    after_entries modify tag qual aclist (after_entry modify tag qual a old)

-- what `acl_calc_mask` makes of the entries, if it is to be called
abbrev Masked : Libacl → Bool → List AclEntry → List AclEntry → Type 0
Masked lib true made masked = lib.calc_mask made ≡ some masked
Masked lib false made masked = masked ≡ made

-- In the round of the entry `a`, which begins with the ACL `file`, the call fails on the very
-- entries that the round has then.
abbrev pub Fails : Libacl → Bool → Bool → AccessControlEntry → List AclEntry → AclError → Type 0
Fails lib modify recalc a file acl_create_entry =
    (modify ≡ true) × (find_entry file a.tag a.qual ≡ none) × (lib.creates file ≡ false)
Fails lib modify recalc a file acl_delete_entry =
    (modify ≡ false)
    × ((i : ℕ) × (find_entry file a.tag a.qual ≡ some i))
    × (lib.deletes file ≡ false)
Fails lib modify recalc a file acl_calc_mask =
    (recalc ≡ true)
    × (made : List AclEntry) × (apply_entry lib modify a file ≡ changed made)
    × (lib.calc_mask made ≡ none)
Fails lib modify recalc a file acl_valid =
    (made : List AclEntry) × (masked : List AclEntry) × (apply_entry lib modify a file
      ≡ changed made)
    × Masked lib recalc made masked
    × (lib.valid masked ≡ false)
Fails lib modify recalc a file acl_set_file =
    (made : List AclEntry) × (masked : List AclEntry) × (apply_entry lib modify a file
      ≡ changed made)
    × Masked lib recalc made masked
    × (lib.valid masked ≡ true)
    × (lib.set_file masked ≡ false)

-- A round fails, and the file has the effect of all entries in front of that of the round.
pub record Stops (lib : Libacl) (modify recalc : Bool) (tag : Tag) (qual : ℕ)
    (aclist : List AccessControlEntry) (old : Option ℕ) (e : AclError) (file : List AclEntry)
    : Type 0 where
  pub front : List AccessControlEntry
  pub entry : AccessControlEntry
  pub back : List AccessControlEntry
  pub whole : aclist ≡ front ++ (entry ∷ back)
  pub fails : Fails lib modify recalc entry file e
  pub effect : lookup tag qual file ≡ after_entries modify tag qual front old

-- The file has the effect of all entries, or of those in front of the one whose round fails.
abbrev pub Shows :
    Libacl → Bool → Bool → Tag → ℕ → List AccessControlEntry → Option ℕ → Updated → Type 0
unfolding lookup
Shows lib modify recalc tag qual aclist old (finished file) =
    lookup tag qual file ≡ after_entries modify tag qual aclist old
Shows lib modify recalc tag qual aclist old (stopped e file) =
    Stops lib modify recalc tag qual aclist old e file

module _ (lib : Libacl) (tag : Tag) (qual : ℕ) (recalc : Bool) where
  abbrev Kept : Bool → AccessControlEntry → List AclEntry → Option ℕ → Changed → Type 0
  unfolding lookup
  Kept modify a file o (not_changed e) = Fails lib modify recalc a file e
  Kept modify a file o (changed acl) = lookup tag qual acl ≡ o

  abbrev Landed : Bool → AccessControlEntry → List AclEntry → Option ℕ → Changed → Type 0
  unfolding lookup
  Landed modify a file o (not_changed e) = Fails lib modify recalc a file e
  Landed modify a file o (changed acl) = Distinct acl × (lookup tag qual acl ≡ o)

  created-Kept :
      (a : AccessControlEntry) (acl : List AclEntry) (b : Bool)
      → lib.creates acl ≡ b
      → find_entry acl a.tag a.qual ≡ none
      → Kept true a acl (after_entry true tag qual a (lookup tag qual acl)) (created lib a acl b)
  unfolding lookup find_entry insert_entry
  created-Kept a acl false c f = (refl, f, c)
  created-Kept a acl true c f =
      lookup-insert_entry tag qual a acl (lib.place acl) (perms_of a a.perms) f

  modified-Kept :
      (a : AccessControlEntry) (acl : List AclEntry) (found : Option ℕ)
      → find_entry acl a.tag a.qual ≡ found
      → Kept true a acl
          (after_entry true tag qual a (lookup tag qual acl))
          (modified lib a acl found)
  unfolding lookup find_entry set_perms insert_entry
  modified-Kept a acl (some i) f = lookup-set_perms tag qual a acl i (perms_of a a.perms) f
  modified-Kept a acl none f = created-Kept a acl (lib.creates acl) refl f

  deleted_if-Kept :
      (a : AccessControlEntry) (acl : List AclEntry) (i : ℕ) (b : Bool)
      → lib.deletes acl ≡ b
      → Distinct acl
      → find_entry acl a.tag a.qual ≡ some i
      → Kept false a acl
          (after_entry false tag qual a (lookup tag qual acl))
          (if b then changed (delete_entry acl i) else not_changed acl_delete_entry)
  unfolding lookup find_entry delete_entry
  deleted_if-Kept a acl i false c d f = (refl, (i, f), c)
  deleted_if-Kept a acl i true c d f = lookup-delete_entry tag qual a acl i d f

  deleted-Kept :
      (a : AccessControlEntry) (acl : List AclEntry) (found : Option ℕ)
      → Distinct acl
      → find_entry acl a.tag a.qual ≡ found
      → Kept false a acl
          (after_entry false tag qual a (lookup tag qual acl))
          (deleted lib acl found)
  unfolding lookup find_entry delete_entry
  deleted-Kept a acl none d f = lookup-find_entry tag qual a acl f
  deleted-Kept a acl (some i) d f = deleted_if-Kept a acl i (lib.deletes acl) refl d f

  apply_entry-Kept :
      (modify : Bool) (a : AccessControlEntry) (acl : List AclEntry)
      → Distinct acl
      → Kept modify a acl
          (after_entry modify tag qual a (lookup tag qual acl))
          (apply_entry lib modify a acl)
  unfolding lookup apply_entry
  apply_entry-Kept true a acl d = modified-Kept a acl (find_entry acl a.tag a.qual) refl
  apply_entry-Kept false a acl d = deleted-Kept a acl (find_entry acl a.tag a.qual) d refl

  module _ (duplicates : FindsDuplicates lib) (mask_only : MaskOnly lib)
      (other : tag ≢ acl_mask) where
    checked-Landed :
        (modify : Bool) (a : AccessControlEntry) (file made acl : List AclEntry) (o : Option ℕ)
        (valid set : Bool)
        → apply_entry lib modify a file ≡ changed made
        → Masked lib recalc made acl
        → lib.valid acl ≡ valid
        → lib.set_file acl ≡ set
        → lookup tag qual acl ≡ o
        → Landed modify a file o (
            if valid
            then (if set then changed acl else not_changed acl_set_file)
            else not_changed acl_valid)
    unfolding lookup
    checked-Landed modify a file made acl o false set m k v w h = (made, acl, m, k, v)
    checked-Landed modify a file made acl o true false m k v w h = (made, acl, m, k, v, w)
    checked-Landed modify a file made acl o true true m k v w h = (duplicates acl v, h)

    with_mask-Landed :
        (modify : Bool) (a : AccessControlEntry) (file made : List AclEntry) (o : Option ℕ)
        (found : Option (List AclEntry))
        → recalc ≡ true
        → apply_entry lib modify a file ≡ changed made
        → lib.calc_mask made ≡ found
        → lookup tag qual made ≡ o
        → Landed modify a file o (with_mask lib found)
    unfolding lookup
    with_mask-Landed modify a file made o none e m c h = (e, made, m, c)
    with_mask-Landed modify a file made o (some acl) e m c h =
        checked-Landed modify a file made acl o (lib.valid acl) (lib.set_file acl) m
          (subst (λ b. Masked lib b made acl) (sym e) c) refl refl
          (mask_only made acl tag qual other c ∙ h)

    recalculated-Landed :
        (modify again : Bool) (a : AccessControlEntry) (file : List AclEntry) (o : Option ℕ)
        (c : Changed)
        → recalc ≡ again
        → apply_entry lib modify a file ≡ c
        → Kept modify a file o c
        → Landed modify a file o (recalculated lib again c)
    unfolding lookup
    recalculated-Landed modify again a file o (not_changed e) r m h = h
    recalculated-Landed modify true a file o (changed made) r m h =
        with_mask-Landed modify a file made o (lib.calc_mask made) r m refl h
    recalculated-Landed modify false a file o (changed made) r m h =
        checked-Landed modify a file made made o (lib.valid made) (lib.set_file made) m
          (subst (λ b. Masked lib b made made) (sym r) refl) refl refl h

    one_more_round :
        (modify : Bool) (a : AccessControlEntry) (aclist : List AccessControlEntry) (old : Option ℕ)
        (r : Updated)
        → Shows lib modify recalc tag qual aclist (after_entry modify tag qual a old) r
        → Shows lib modify recalc tag qual (a ∷ aclist) old r
    unfolding lookup
    one_more_round modify a aclist old (finished file) h = h
    one_more_round modify a aclist old (stopped e file) h = record {
      front = a ∷ h.front;
      entry = h.entry;
      back = h.back;
      whole = ap (λ l. a ∷ l) h.whole;
      fails = h.fails;
      effect = h.effect;
    }

    continue-Shows :
        (modify : Bool) (a : AccessControlEntry) (aclist : List AccessControlEntry)
        (acl : List AclEntry) (rest : List AclEntry → Updated) (c : Changed)
        → ((acl' : List AclEntry)
            → Distinct acl'
            → Shows lib modify recalc tag qual aclist (lookup tag qual acl') (rest acl'))
        → Landed modify a acl (after_entry modify tag qual a (lookup tag qual acl)) c
        → Shows lib modify recalc tag qual (a ∷ aclist) (lookup tag qual acl) (continue rest acl c)
    unfolding lookup
    continue-Shows modify a aclist acl rest (not_changed e) others h = record {
      front = [];
      entry = a;
      back = aclist;
      whole = refl;
      fails = h;
      effect = refl;
    }
    continue-Shows modify a aclist acl rest (changed acl') others (d, h) =
        one_more_round modify a aclist (lookup tag qual acl) (rest acl')
          (subst (λ o. Shows lib modify recalc tag qual aclist o (rest acl')) h (others acl' d))

    -- For a library that finds entries for the same users and whose mask changes no other entry,
    -- and a file whose ACL has no two entries for the same users: for a tag other than the mask and
    -- an id the file ends with what the entries of the specification make of the permissions of
    -- before, one after the other, with -m and with -x; or a call fails on the entries that the
    -- round of some entry has for it, and the file has the effect of all entries in front of that.
    pub update_file-Shows :
        (modify : Bool) (aclist : List AccessControlEntry) (acl : List AclEntry)
        → Distinct acl
        → Shows lib modify recalc tag qual aclist
            (lookup tag qual acl)
            (update_file lib modify recalc aclist acl)
    unfolding lookup update_file
    update_file-Shows modify [] acl d = refl
    update_file-Shows modify (a ∷ aclist) acl d =
        continue-Shows modify a aclist acl (λ acl'. update_file lib modify recalc aclist acl')
          (recalculated lib recalc (apply_entry lib modify a acl))
          (λ acl' d'. update_file-Shows modify aclist acl' d')
          (recalculated-Landed modify recalc a acl
            (after_entry modify tag qual a (lookup tag qual acl)) (apply_entry lib modify a acl)
            refl refl (apply_entry-Kept modify a acl d))
