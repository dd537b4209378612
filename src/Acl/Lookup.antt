-- ===== src/Acl/Lookup.antt =====
-- What an update leaves for each user and group.
use my_file.Prelude.{
  ℕ, zero, suc, ◌≡◌, refl, ◌∙◌, Bool, true, false, Option, none, some, List, [], ◌∷◌, arith, sym,
  ◌==◌, ◌&&◌, if◌then◌else◌,
}
use my_file.Acl.Spec.{
  Tag, acl_user_obj, acl_user, acl_group_obj, acl_group, acl_mask, acl_other, AclEntry,
  AccessControlEntry,
}
use my_file.Acl.Update.{
  tag_no, same_key, matches, one_more, find_entry, perms_set, set_perms, delete_entry, insert_entry,
}

-- whether two entries are for the same users
abbrev pub same_users : Tag → ℕ → Tag → ℕ → Bool
same_users acl_user_obj q t r = tag_no t == 0
same_users acl_user q t r = (tag_no t == 1) && (q == r)
same_users acl_group_obj q t r = tag_no t == 2
same_users acl_group q t r = (tag_no t == 3) && (q == r)
same_users acl_mask q t r = tag_no t == 4
same_users acl_other q t r = tag_no t == 5

same_users-same_key :
    (t : Tag) (q : ℕ) (t' : Tag) (q' : ℕ)
    → same_users t q t' q' ≡ same_key (tag_no t) q (tag_no t') q'
same_users-same_key acl_user_obj q t' q' = ground arith
same_users-same_key acl_user q t' q' = ground arith
same_users-same_key acl_group_obj q t' q' = ground arith
same_users-same_key acl_group q t' q' = ground arith
same_users-same_key acl_mask q t' q' = ground arith
same_users-same_key acl_other q t' q' = ground arith

-- the permissions of the first entry for a tag and an id
unfoldable pub lookup : Tag → ℕ → List AclEntry → Option ℕ
lookup tag qual [] = none
lookup tag qual (e ∷ acl) =
    let later = lookup tag qual acl in
    if same_users tag qual e.tag e.qual then some e.perms else later

-- a choice among the entries
chosen :
    {A : Type 0}
    → (b : Bool) (x y z : A) → (if b then x else z) ≡ (if b then x else (if b then y else z))
chosen true x y z = refl
chosen false x y z = refl

passed :
    {A : Type 0}
    → (b m : Bool) (x y z z' : A) → (b ≡ true → m ≡ false)
    → z' ≡ (if b then x else z)
    → (if m then y else z') ≡ (if b then x else (if m then y else z))
passed true true x y z z' other eq = let c = other refl in cc
passed true false x y z z' other eq = eq
passed false true x y z z' other eq = refl
passed false false x y z z' other eq = eq

emptied :
    {A : Type 0} → (b : Bool) (o : Option A) → (b ≡ true → o ≡ none) → o ≡ (if b then none else o)
emptied true o gone = gone refl
emptied false o gone = refl

-- what an index that was found says of the first entry
found_first : (m : Bool) (o : Option ℕ) → (if m then some 0 else one_more o) ≡ some 0 → m ≡ true
found_first true o f = refl
found_first false none f = cc
found_first false (some i) f = grind arith

found_later :
    (m : Bool) (o : Option ℕ) (i : ℕ)
    → (if m then some 0 else one_more o) ≡ some (suc i)
    → (m ≡ false) × (o ≡ some i)
found_later true o i f = grind arith
found_later false none i f = cc
found_later false (some j) i f = (refl, grind arith)

not_found :
    (m : Bool) (o : Option ℕ) → (if m then some 0 else one_more o) ≡ none → (m ≡ false) × (o ≡ none)
not_found true o f = cc
not_found false none f = (refl, refl)
not_found false (some j) f = cc

lookup-same_users :
    (acl : List AclEntry) (t : Tag) (q : ℕ) (t' : Tag) (q' : ℕ)
    → same_users t q t' q' ≡ true
    → lookup t' q' acl ≡ lookup t q acl
unfolding lookup
lookup-same_users [] t q t' q' h = refl
lookup-same_users (x ∷ acl) t q t' q' h =
    let k : same_key (tag_no t) q (tag_no t') q' ≡ true = rw (← same_users-same_key t q t' q') h in
    let same : same_users t' q' x.tag x.qual ≡ same_users t q x.tag x.qual =
      rw (same_users-same_key t' q' x.tag x.qual, same_users-same_key t q x.tag x.qual)
        (ground arith) in
    rw (same, lookup-same_users acl t q t' q' h) refl

-- No two entries have one key.
abbrev pub Distinct : List AclEntry → Type 0
unfolding lookup
Distinct [] = Unit {0}
Distinct (e ∷ acl) = (lookup e.tag e.qual acl ≡ none) × Distinct acl

module _ (tag : Tag) (qual : ℕ) (a : AccessControlEntry) where
  -- whether the specification's entry is for the tag and the id
  abbrev pub hit : Bool
  hit = same_users a.tag a.qual tag qual

  both : (e : AclEntry) → matches a.tag a.qual e ≡ true → same_users tag qual e.tag e.qual ≡ hit
  both e h =
      rw (same_users-same_key tag qual e.tag e.qual, same_users-same_key a.tag a.qual tag qual)
        (ground arith)

  only : (e : AclEntry) → hit ≡ true → same_users tag qual e.tag e.qual ≡ matches a.tag a.qual e
  only e h =
      let k : same_key (tag_no a.tag) a.qual (tag_no tag) qual ≡ true =
        rw (← same_users-same_key a.tag a.qual tag qual) h in
      rw (same_users-same_key tag qual e.tag e.qual) (ground arith)

  pub turned : same_users tag qual a.tag a.qual ≡ hit
  turned =
      rw (same_users-same_key tag qual a.tag a.qual, same_users-same_key a.tag a.qual tag qual)
        (ground arith)

  pub lookup-gone :
      (acl : List AclEntry)
      → lookup a.tag a.qual acl ≡ none
      → lookup tag qual acl ≡ (if hit then none else lookup tag qual acl)
  unfolding lookup
  lookup-gone acl gone =
      emptied hit (lookup tag qual acl) (λ h. lookup-same_users acl a.tag a.qual tag qual h ∙ gone)

  pub lookup-set_perms :
      (acl : List AclEntry) (i p : ℕ)
      → find_entry acl a.tag a.qual ≡ some i
      → lookup tag qual (set_perms acl i p)
        ≡ (if hit then some (perms_set p) else lookup tag qual acl)
  unfolding lookup find_entry set_perms
  lookup-set_perms [] i p f = cc
  lookup-set_perms (e ∷ acl) zero p f =
      rw (both e (found_first (matches a.tag a.qual e) (find_entry acl a.tag a.qual) f))
        (chosen hit (some (perms_set p)) (some e.perms) (lookup tag qual acl))
  lookup-set_perms (e ∷ acl) (suc i) p f =
      let later = found_later (matches a.tag a.qual e) (find_entry acl a.tag a.qual) i f in
      passed hit (same_users tag qual e.tag e.qual) (some (perms_set p)) (some e.perms)
        (lookup tag qual acl) (lookup tag qual (set_perms acl i p)) (λ h. only e h ∙ later.0)
        (lookup-set_perms acl i p later.1)

  pub lookup-insert_entry :
      (acl : List AclEntry) (i p : ℕ)
      → find_entry acl a.tag a.qual ≡ none
      → lookup tag qual
          (insert_entry acl i (record { tag = a.tag; qual = a.qual; perms = perms_set p }))
        ≡ (if hit then some (perms_set p) else lookup tag qual acl)
  unfolding lookup find_entry insert_entry
  lookup-insert_entry [] i p f = rw turned refl
  lookup-insert_entry (e ∷ acl) zero p f = rw turned refl
  lookup-insert_entry (e ∷ acl) (suc i) p f =
      let later = not_found (matches a.tag a.qual e) (find_entry acl a.tag a.qual) f in
      passed hit (same_users tag qual e.tag e.qual) (some (perms_set p)) (some e.perms)
        (lookup tag qual acl)
        (lookup tag qual
          (insert_entry acl i (record { tag = a.tag; qual = a.qual; perms = perms_set p })))
        (λ h. only e h ∙ later.0) (lookup-insert_entry acl i p later.1)

  pub lookup-find_entry :
      (acl : List AclEntry)
      → find_entry acl a.tag a.qual ≡ none
      → lookup tag qual acl ≡ (if hit then none else lookup tag qual acl)
  unfolding lookup find_entry
  lookup-find_entry [] f = grind arith
  lookup-find_entry (e ∷ acl) f =
      let later = not_found (matches a.tag a.qual e) (find_entry acl a.tag a.qual) f in
      passed hit (same_users tag qual e.tag e.qual) none (some e.perms) (lookup tag qual acl)
        (lookup tag qual acl) (λ h. only e h ∙ later.0) (lookup-find_entry acl later.1)

  pub lookup-delete_entry :
      (acl : List AclEntry) (i : ℕ)
      → Distinct acl
      → find_entry acl a.tag a.qual ≡ some i
      → lookup tag qual (delete_entry acl i) ≡ (if hit then none else lookup tag qual acl)
  unfolding lookup find_entry delete_entry
  lookup-delete_entry [] i d f = cc
  lookup-delete_entry (e ∷ acl) zero d f =
      let here = both e (found_first (matches a.tag a.qual e) (find_entry acl a.tag a.qual) f) in
      emptied hit (lookup tag qual acl)
        (λ h. sym (lookup-same_users acl tag qual e.tag e.qual (here ∙ h)) ∙ d.0)
      ∙ (rw here (chosen hit none (some e.perms) (lookup tag qual acl)))
  lookup-delete_entry (e ∷ acl) (suc i) d f =
      let later = found_later (matches a.tag a.qual e) (find_entry acl a.tag a.qual) i f in
      passed hit (same_users tag qual e.tag e.qual) none (some e.perms) (lookup tag qual acl)
        (lookup tag qual (delete_entry acl i)) (λ h. only e h ∙ later.0)
        (lookup-delete_entry acl i d.1 later.1)
