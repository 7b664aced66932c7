-- ===== src/Lines/Append.antt =====
-- `_growArray`, `_addArray` and `_catArray` append to the list that an array stands for.
use bksupport.Base.{
  ℕ, ◌+◌, ◌-◌, ◌≤◌, ◌<◌, ◌≡◌, refl, sym, ap, ◌∙◌, List, [], ◌∷◌, ◌++◌, map, append_assoc,
  append-nil, Option, none, some, arith, length, length-append, length-map, replicate,
  length-replicate, take, drop, ◌==◌, take-append-drop, length-take, length-drop, false, ok,
  Returns, normal_parts,
}
use bksupport.Cells.{Cells, write, write_all, write_all_mid, read_all, read_all_mid}
use bksupport.Lines.{
  Array, Space, llen, n_lines, grow_array, add_array, cat_array, set_llen, item_or,
}
use bksupport.Lines.Grow.{HasRoom, grow-Holds, header}
use bksupport.Lines.Shape.{Holds, Models, SpaceModels, set_llen_join}

module _ {ℓ} {A : Type ℓ} where
  pub map-some-append : (xs ys : List A) → map some xs ++ map some ys ≡ map some (xs ++ ys)
  map-some-append [] ys = refl
  map-some-append (x ∷ xs) ys = ap (◌∷◌ (some x)) (map-some-append xs ys)

  -- Elements are written into the spare cells.
  pub write_all-Holds :
      {xs : List A} {n c : ℕ} {spare : Cells A} {a : Array A} (vs : List A)
      → Holds xs n c spare a
      → length xs + length vs ≤ n
      → Returns
          (write_all a.cells (length xs) vs)
          λ cells. Holds (xs ++ vs) n c (drop (length vs) spare) (record a { cells = cells })
  write_all-Holds {xs} {n} {c} {spare} {a} vs h room =
      let k = length vs in
      let cut : length (take k spare) ≡ length vs =
        omega (arith, length-take k spare, h.sized, h.fits) in
      let cut_cells : a.cells ≡ map some xs ++ (take k spare ++ drop k spare) =
        h.cells_are ∙ ap (λ t. map some xs ++ t) (sym (take-append-drop k spare)) in
      (
        map some xs ++ (map some vs ++ drop k spare),
        rw cut_cells (write_all_mid xs (take k spare) (drop k spare) vs cut),
        record {
          hdr_is = h.hdr_is;
          cells_are = rw (← append_assoc, map-some-append);
          sized = rw (length-append, length-drop) (omega (arith, h.sized, h.fits));
          fits = h.fits;
          small = h.small;
        },
      )

  pub write-Holds :
      {xs : List A} {n c : ℕ} {spare : Cells A} {a : Array A} (v : A)
      → Holds xs n c spare a
      → length xs < n
      → Returns
          (write a.cells (length xs) v)
          λ cells. Holds (xs ++ v ∷ []) n c (drop 1 spare) (record a { cells = cells })
  unfolding write_all
  write-Holds {xs} {a = a} v h room =
      let (cells, run, h') = write_all-Holds (v ∷ []) h (omega arith) in
      let (cells', run', e) = normal_parts (write a.cells (length xs) v) ok cells run in
      (cells, run' ∙ e, h')

  -- An array whose written part has come up to its length.
  pub full :
      {xs : List A} {n c : ℕ} {spare : Cells A} {a : Array A}
      → Holds xs n c spare a
      → n ≡ length xs
      → Models xs a
  full {xs} {n} {c} {spare} {a} h e = record { log = c; spare = spare; holds = rw e at h }

  -- `setLLEN` to a smaller length keeps the elements before it.
  pub set_llen-Models :
      {xs : List A} {a : Array A} (n : ℕ)
      → Models xs a
      → n ≤ length xs
      → Models (take n xs) (record a { hdr = set_llen a.hdr n })
  set_llen-Models {xs} {a} n m le =
      let h = m.holds in
      let (_, _, small) = header h in
      let kept : length (take n xs) ≡ n = omega (arith, length-take n xs) in
      record {
        log = m.log;
        spare = map some (drop n xs) ++ m.spare;
        holds = record {
          hdr_is =
              rw (h.hdr_is, kept)
                (set_llen_join m.log (length xs) n (omega (arith, h.small)) small (omega arith));
          cells_are = rw (← append_assoc, map-some-append, take-append-drop) h.cells_are;
          sized = rw (length-append, length-map, kept, length-drop) (omega (arith, h.sized));
          fits = rw kept (omega (arith, h.fits));
          small = h.small;
        };
      }

  pub n_lines-Models : (xs : List A) (s : Space A) → SpaceModels xs s → n_lines s ≡ length xs
  unfolding n_lines
  n_lines-Models xs (some a) m = (header m.holds).0
  n_lines-Models xs none m = ap length (sym m)

  module _ (zeros : A) (xs : List A) (space : Space A) (size : ℕ) (m : SpaceModels xs space) where
    -- `addArray` appends the element that it is given, or one that is cleared, and returns its
    -- position.
    pub add_array-Models :
        (x : Option A)
        → HasRoom size (length xs + 1)
        → Returns
            (add_array zeros space x size)
            λ r. Models (xs ++ item_or zeros x ∷ []) r.0 × (r.1 ≡ length xs + 1)
    unfolding add_array
    add_array-Models x room =
        let v = item_or zeros x in
        let (a, run, (c, spare, h)) = grow-Holds xs space 1 size m room in
        let (cells, run', h') = write-Holds v h (omega arith) in
        let len : llen a.hdr ≡ length xs + 1 = (header h).0 in
        let at_end : length xs + 1 - 1 ≡ length xs = omega arith in
        (
          (record a { cells = cells }, length xs + 1),
          rw (run, len, at_end, run'),
          (full h' (rw length-append (omega arith)), refl),
        )

    -- `growArray` appends `add` cleared elements and returns the position of the first.
    pub grow_array-Models :
        (add : ℕ)
        → HasRoom size (length xs + add)
        → Returns
            (grow_array zeros space add size)
            λ r. Models (xs ++ replicate add zeros) r.0 × (r.1 ≡ length xs + 1)
    unfolding grow_array
    grow_array-Models add room =
        let (a, run, (c, spare, h)) = grow-Holds xs space add size m room in
        let fits = length-replicate add zeros in
        let (cells, run', h') = write_all-Holds (replicate add zeros) h (omega (arith, fits)) in
        let len : llen a.hdr ≡ length xs + add = (header h).0 in
        let ret : length xs + add - add + 1 ≡ length xs + 1 = omega arith in
        let at_end : length xs + 1 - 1 ≡ length xs = omega arith in
        (
          (record a { cells = cells }, length xs + 1),
          rw (run, len, ret, at_end, run'),
          (full h' (rw length-append (omega (arith, fits))), refl),
        )

    -- `catArray` moves the elements of the second array behind those of the first, and leaves the
    -- second empty.
    pub cat_array-Models :
        (ys : List A) (array : Array A)
        → Models ys array
        → HasRoom size (length xs + length ys)
        → Returns (cat_array space array size) λ r. SpaceModels (xs ++ ys) r.0 × Models [] r.1
    unfolding cat_array
    cat_array-Models [] array m' room = rw (header m'.holds).0 (_, refl, (rw append-nil m, m'))
    cat_array-Models (y ∷ ys) array m' room =
        let vs = y ∷ ys in
        let (a, run, (c, spare, h)) = grow-Holds xs space (length vs) size m room in
        let (cells, run', h') = write_all-Holds vs h (omega arith) in
        let got : read_all array.cells 0 (length vs) ≡ ok vs =
          rw m'.holds.cells_are (read_all_mid [] vs m'.spare) in
        let some_left : length vs == 0 ≡ false = ground arith in
        let n1 = n_lines-Models xs space m in
        (
          (
            some (record a { cells = cells }),
            record array { hdr = set_llen array.hdr 0 },
            some (length xs + 1),
          ),
          rw ((header m'.holds).0, some_left, run, got, n1, run'),
          (full h' (rw length-append refl), set_llen-Models 0 m' (omega arith)),
        )
