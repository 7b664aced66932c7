-- ===== src/Tests/FmemRuns.antt =====
-- Runs of the byte blocks and of the files in memory.
use bksupport.Base.{
  true, false, ◌≡◌, refl, [], ◌∷◌, ◌++◌, map, none, some, codes, arith, ok, Returns, ◌>>=◌,
}
use bksupport.Cells.{read, read_all}
use bksupport.DataBlock.Append.{Appended, data_append-Appended}
use bksupport.DataBlock.{no_data, data_append}
use bksupport.Fmem.Text.{FileIs}
use bksupport.Fmem.{Fmem, fmem_buf, fmem_dup}

data_append-Appended_example : Returns (data_append no_data (codes "abc")) (Appended (codes "abc"))
data_append-Appended_example =
    data_append-Appended [] [] no_data (codes "abc")
      (record { cells_are = refl; len_is = refl; size_is = refl }) (omega arith)

-- A file that holds "abcd", with its offset at the second byte and two bytes to spare.
abbrev file : Fmem
file = record {
  d = record { buf = map some (codes "abcd") ++ none ∷ none ∷ []; len = 4; size = 6 };
  offset = 1;
  writable = true;
}

abbrev fixed_file : Fmem
fixed_file = record {
  d = record { buf = map some (codes "abc") ++ some 0 ∷ []; len = 3; size = 4 };
  offset = 0;
  writable = false;
}

fixed_file_run : fmem_buf (codes "abc") ≡ fixed_file
unfolding fmem_buf
fixed_file_run = refl

fixed_file-FileIs : FileIs (codes "abc") fixed_file
fixed_file-FileIs = record {
  spare = some 0 ∷ [];
  holds = record { cells_are = refl; len_is = refl; size_is = refl };
  inside = omega arith;
}

dup_run : fmem_dup file ≡ ok (codes "abcd")
unfolding fmem_dup read_all read
dup_run = refl
