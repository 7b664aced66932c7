-- ===== src/Tests/ArrayRuns.antt =====
-- Runs of the array code of lines/lines.c.
use bksupport.Base.{
  ℕ, ◌+◌, ◌*◌, ◌^◌, ◌≡◌, refl, List, [], ◌∷◌, none, some, arith, replicate, codes, Returns, ◌≤◌,
}
use bksupport.LineText.Join.{split_line-join_lines}
use bksupport.LineText.{join_lines, split_line}
use bksupport.Lines.Append.{add_array-Models}
use bksupport.Lines.Grow.{HasRoom}
use bksupport.Lines.Insert.{insert_array-Models}
use bksupport.Lines.Remove.{remove_array-Models}
use bksupport.Lines.Shape.{Models}
use bksupport.Lines.{Array, add_array, insert_array, remove_array}

-- three numbers in an array of eight cells
abbrev three : Array ℕ
three = record { hdr = 3 * 2 ^ 27 + 3; cells = some 5 ∷ some 6 ∷ some 7 ∷ replicate 4 none }

abbrev three_items : List ℕ
three_items = 5 ∷ 6 ∷ 7 ∷ []

three-Models : Models three_items three
three-Models = record {
  log = 3;
  spare = replicate 4 none;
  holds = record {
    hdr_is = refl;
    cells_are = refl;
    sized = refl;
    fits = omega arith;
    small = omega arith;
  };
}

room : (n : ℕ) → n ≤ 100 → HasRoom 8 n
room n h = record {
  least = omega arith;
  count = omega arith;
  bytes = omega arith;
  first = omega arith;
}

add_array-Models_example :
    Returns (add_array 0 (some three) (some 9) 8) λ r. Models (5 ∷ 6 ∷ 7 ∷ 9 ∷ []) r.0 × (r.1 ≡ 4)
add_array-Models_example =
    add_array-Models 0 three_items (some three) 8 three-Models (some 9) (room 4 (omega arith))

insert_array-Models_example :
    Returns (insert_array 0 (some three) 2 (some 9) 8) (Models (5 ∷ 9 ∷ 6 ∷ 7 ∷ []))
insert_array-Models_example =
    insert_array-Models 0 (some three) 8 (some 9) three_items 2 three-Models (room 4 (omega arith))
      (omega arith) (omega arith)

remove_array-Models_example : Returns (remove_array three 2) (Models (5 ∷ 7 ∷ []))
remove_array-Models_example =
    remove_array-Models three_items three 2 three-Models (omega arith) (omega arith)

split_line-join_lines_example :
    split_line (codes "a:bc:d") (codes ":,") [] ≡ some (codes "a" ∷ codes "bc" ∷ codes "d" ∷ [])
unfolding join_lines
split_line-join_lines_example =
    split_line-join_lines (codes ":,") b':' refl (codes "a") (codes "bc" ∷ codes "d" ∷ []) []
      ((refl, tt), ((refl, (refl, tt)), ((refl, tt), tt))) refl
