-- ===== src/Db/Records/Data.antt =====
-- `_db_readdat` on a data record that the file holds.
use my_file.Prelude.{
  ℕ, suc, ◌+◌, ◌≡◌, ap, ◌∙◌, List, [], ◌∷◌, ◌++◌, arith, ==-refl, length, length-append,
}
use my_file.CLib.Strings.{cstr, init}
use my_file.CLib.Strings.Laws.{Lacks, cstr-Lacks, init-append, last_or-append}
use my_file.CLib.Files.{read_at, HasAt}
use my_file.Db.State.{Db, ok}
use my_file.Db.Records.{newline, readdat}

-- _db_readdat where the file holds a data record of the length in the structure, with no null byte,
-- returns its text, less the newline, and keeps it in the data buffer.
pub readdat-text :
    (s : Db) (text : List ℕ)
    → HasAt s.dat s.datoff (text ++ newline ∷ [])
    → s.datlen ≡ suc (length text)
    → Lacks 0 text
    → readdat s ≡ ok text (record s { datpos = s.datoff + suc (length text); datbuf = text })
unfolding readdat
readdat-text s text at len clean =
    let size : length (text ++ newline ∷ []) ≡ suc (length text) =
      omega (arith, length-append text (newline ∷ [])) in
    let got : read_at s.dat s.datoff (suc (length text)) ≡ text ++ newline ∷ [] = rw size at at in
    let kept : cstr (init (text ++ newline ∷ [])) ≡ text =
      ap cstr (init-append text newline) ∙ cstr-Lacks text clean in
    rw (len, got, size, ==-refl (suc (length text)), last_or-append 0 text newline, kept)
