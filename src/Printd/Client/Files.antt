-- ===== src/Printd/Client/Files.antt =====
-- The files of one name in the spool: what a put or an unlinking leaves.
use my_file.Prelude.{
  and_false, bytes_eq, bytes_eq_refl, bytes_eq_sound, ℕ, ◌≡◌, refl, sym, ◌∙◌, inl, inr, false,
  Option, none, List, Bool-cases,
}
use my_file.Printd.Client.{Dir, data_dir, req_dir, SpoolFile, Server, same_file, bytes_eq, put_file}

-- The files of the other names are those of before.
abbrev pub Others : List ℕ → Server → Server → Type 0
Others n s t = (d : Dir) (m : List ℕ) → bytes_eq m n ≡ false → t.spool d m ≡ s.spool d m

-- The name has no file.
abbrev pub Unspooled : List ℕ → Server → Type 0
Unspooled n s = (d : Dir) → s.spool d n ≡ none

pub put_file-Others :
    (d : Dir) (n : List ℕ) (file : Option SpoolFile) (s t : Server)
    → Others n s t
    → Others n s (put_file d n file t)
put_file-Others d n file s t o d' m h = rw (h, and_false (same_file d' d)) (o d' m h)

-- a file that was just put, and one of the other directory
pub put_self :
    (d : Dir) (n : List ℕ) (file : Option SpoolFile) (s : Server)
    → (put_file d n file s).spool d n ≡ file
unfolding same_file
put_self data_dir n file s = rw (bytes_eq_refl n) refl
put_self req_dir n file s = rw (bytes_eq_refl n) refl

pub put_beside :
    (n : List ℕ) (file : Option SpoolFile) (s : Server)
    → (put_file req_dir n file s).spool data_dir n ≡ s.spool data_dir n
unfolding same_file
put_beside n file s = refl

pub put_beside' :
    (n : List ℕ) (file : Option SpoolFile) (s : Server)
    → (put_file data_dir n file s).spool req_dir n ≡ s.spool req_dir n
unfolding same_file
put_beside' n file s = refl

pub unchanged :
    (n : List ℕ) (s t : Server)
    → Others n s t
    → Unspooled n s
    → Unspooled n t
    → (d : Dir) (m : List ℕ) → t.spool d m ≡ s.spool d m
unchanged n s t o e e' d m = elim (Bool-cases (bytes_eq m n)) [
  | inl same ↦ let eq = bytes_eq_sound m n same in rw eq (e' d ∙ sym (e d))
  | inr other ↦ o d m other
]

pub both :
    (t : Server) (n : List ℕ) → t.spool data_dir n ≡ none → t.spool req_dir n ≡ none → Unspooled n t
both t n d e data_dir = d
both t n d e req_dir = e
