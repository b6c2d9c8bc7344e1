-- ===== src/Strings/Tests.antt =====
-- The string functions at concrete inputs.
use libmowgli.Base.{◌≤◌, ◌<◌, ◌≡◌, refl, [], ◌∷◌, some, arith}
use libmowgli.Strings.{Buffer, copied, strlcpy, strlcat, append}
use libmowgli.Strings.Copy.{strlcpy-onto, strlcat-onto}
use libmowgli.Strings.Grow.{contents, IsValid}
use libmowgli.Strings.Append.{append-contents, append_loses_bytes}

-- "hi" in a block of eight bytes.
abbrev hi : Buffer
hi = record { str = 104 ∷ 105 ∷ 0 ∷ 0 ∷ 0 ∷ 0 ∷ 0 ∷ 0 ∷ []; pos = 2; size = 8 }

hi-IsValid : IsValid hi
hi-IsValid = record {
  sized = refl;
  room = omega arith;
  terminated = (0 ∷ 0 ∷ 0 ∷ 0 ∷ 0 ∷ [], refl);
}

-- "h", a terminator, "i": full but for one byte.
abbrev split : Buffer
split = record { str = 104 ∷ 0 ∷ 105 ∷ 0 ∷ []; pos = 3; size = 4 }

split-IsValid : IsValid split
split-IsValid = record { sized = refl; room = omega arith; terminated = ([], refl) }

append-contents_example :
    (s' : Buffer) × (append hi (33 ∷ 34 ∷ []) 1 ≡ some s')
    × (contents s' ≡ 104 ∷ 105 ∷ 33 ∷ [])
    × IsValid s'
append-contents_example =
    append-contents hi (33 ∷ 34 ∷ []) 1 hi-IsValid ((λ e. omega arith), ((λ e. omega arith), tt))
      (omega arith) (omega arith)

append_loses_bytes_example :
    (s' : Buffer) × (append split (33 ∷ []) 1 ≡ some s') × (contents s' ≡ 104 ∷ 0 ∷ 0 ∷ 33 ∷ [])
append_loses_bytes_example =
    append_loses_bytes split (104 ∷ []) (105 ∷ []) (33 ∷ []) 1 split-IsValid
      ((λ e. omega arith), tt) refl refl (omega arith) (omega arith)

strlcpy-onto_example :
    strlcpy (9 ∷ 9 ∷ 9 ∷ 9 ∷ []) (104 ∷ 105 ∷ 33 ∷ 0 ∷ []) 3
    ≡ some (copied (104 ∷ 105 ∷ 0 ∷ 9 ∷ []) 3)
strlcpy-onto_example =
    strlcpy-onto 2 (9 ∷ 9 ∷ 9 ∷ 9 ∷ []) (104 ∷ 105 ∷ 33 ∷ []) []
      ((λ e. omega arith), ((λ e. omega arith), ((λ e. omega arith), tt))) (omega arith)

strlcat-onto_example :
    ((1 ≤ 2)
      → strlcat (104 ∷ 0 ∷ 9 ∷ 9 ∷ []) (105 ∷ 33 ∷ 0 ∷ []) 3
        ≡ some (copied (104 ∷ 105 ∷ 0 ∷ 9 ∷ []) 3))
    × ((2 < 1)
        → strlcat (104 ∷ 0 ∷ 9 ∷ 9 ∷ []) (105 ∷ 33 ∷ 0 ∷ []) 3
          ≡ some (copied (104 ∷ 0 ∷ 9 ∷ 9 ∷ []) 5))
strlcat-onto_example =
    strlcat-onto 2 (104 ∷ []) (9 ∷ 9 ∷ []) (105 ∷ 33 ∷ []) [] ((λ e. omega arith), tt)
      ((λ e. omega arith), ((λ e. omega arith), tt)) (omega arith)
