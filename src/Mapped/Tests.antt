-- ===== src/Mapped/Tests.antt =====
-- The theorems about pages on a page of two bytes at the start of a file.
use ewlibs.Base.{take, drop, ℕ, ◌≡◌, refl, true, none, some, List, [], ◌∷◌, arith}
use ewlibs.Mapped.{File, Page}
use ewlibs.Mapped.Valid.{Valid}
use ewlibs.Mapped.Sequence.{to_map, to_unmap, to_copy, run_calls, run_calls-Valid}

abbrev contents : List ℕ
contents = b'a' ∷ b'b' ∷ b'c' ∷ []

abbrev abc_file : File
abc_file = record {
  map = λ offset n. some (take n (drop offset contents));
  unmap = λ block n. true;
}

abbrev two_bytes : Page
two_bytes = record {
  ptr = none;
  used = 2;
  allocated = 2;
  init = true;
  is_mapped = true;
  offset = 0;
  on_disk_offset = 0;
  file = true;
  nr_ref = 0;
}

two_bytes-Valid : Valid abc_file (b'a' ∷ b'b' ∷ []) two_bytes
two_bytes-Valid = record {
  measured = refl;
  some_bytes = omega arith;
  bounded = omega arith;
  counted = omega arith;
  on_disk = λ e. (refl, refl, refl, refl);
  in_memory = λ e. absurd (cc e);
}

run_calls-Valid_example :
    (p' : Page) × (run_calls abc_file (to_map ∷ to_map ∷ to_unmap ∷ to_copy ∷ []) two_bytes
      ≡ some p')
    × Valid abc_file (b'a' ∷ b'b' ∷ []) p'
run_calls-Valid_example =
    run_calls-Valid abc_file (b'a' ∷ b'b' ∷ []) (to_map ∷ to_map ∷ to_unmap ∷ to_copy ∷ [])
      two_bytes two_bytes-Valid (omega arith)
