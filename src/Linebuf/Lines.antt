-- ===== src/Linebuf/Lines.antt =====
-- src/libmowgli/linebuf/linebuf.c: how `mowgli_linebuf_process` takes a buffer apart.
use libmowgli.Base.{
  ℕ, suc, ◌≡◌, ◌≢◌, refl, ap, sym, ◌∙◌, List, [], ◌∷◌, ◌++◌, append_assoc, append-nil, Option, none,
  some, Bool, true, false, ◌||◌, ◌==◌, if◌then◌else◌, length, All, arith,
}
use libmowgli.Json.Text.{strchr}
use libmowgli.Linebuf.{Bytes, Scanned, scanned, past, ended, scan}

-- A line with the delimiters that end it.
pub record Line : Type 0 where
  pub text : Bytes
  pub sep : ℕ
  pub seps : Bytes

-- The lines one behind the other, and the beginning of another.
abbrev pub joined : List Line → Bytes → Bytes
joined [] rest = rest
joined (l ∷ ls) rest = l.text ++ (l.sep ∷ (l.seps ++ joined ls rest))

abbrev pub texts : List Line → List Bytes
texts [] = []
texts (l ∷ ls) = l.text ∷ texts ls

abbrev pub IsDelim : Bytes → ℕ → Type 0
IsDelim delim c = strchr delim c ≡ true

abbrev pub IsPlain : Bytes → ℕ → Type 0
IsPlain delim c = strchr delim c ≡ false

abbrev pub IsLine : Bytes → Line → Type 0
IsLine delim l = All (IsPlain delim) l.text × IsDelim delim l.sep × All (IsDelim delim) l.seps

-- Only the first line may be empty: further delimiters belong to the line before.
abbrev pub AreApart : List Line → Type 0
AreApart [] = Unit
AreApart (l ∷ ls) = All (λ l. l.text ≢ []) ls

abbrev pasts : Bytes → Option Scanned → Option Scanned
pasts [] o = o
pasts (c ∷ cs) o = past c (pasts cs o)

-- NUL is a delimiter of every line buffer.
plain-zero : (delim : Bytes) (c : ℕ) → IsPlain delim c → (c == 0) ≡ false
unfolding strchr
plain-zero [] c h = ground arith
plain-zero (d ∷ delim) c h = ground (arith, plain-zero delim c)

flag-plain : (delim : Bytes) (c : ℕ) (b : Bool) → IsPlain delim c → (b || (c == 0)) ≡ b
flag-plain delim c true h = refl
flag-plain delim c false h = plain-zero delim c h

module _ (delim : Bytes) (normal : Bool) where
  word_lem :
      (w x : Bytes) (b : Bool) (line cells : Bytes)
      → All (IsPlain delim) w
      → scan delim normal (length (w ++ x)) b (some line) (w ++ cells)
        ≡ pasts w (scan delim normal (length x) b (some (line ++ w)) cells)
  unfolding scan
  word_lem [] x b line cells h =
      ap (λ l. scan delim normal (length x) b (some l) cells) (sym (append-nil line))
  word_lem (c ∷ w) x b line cells h =
      let n = length (w ++ x) in
      let rest = scan delim normal n false none (w ++ cells) in
      ap
        (λ t.
          if t
          then ended line (past (if normal then 0 else c) rest)
          else past c (scan delim normal n (b || (c == 0)) (some (line ++ (c ∷ []))) (w ++ cells)))
        h.0
      ∙ ap (past c) (
          ap (λ z. scan delim normal n z (some (line ++ (c ∷ []))) (w ++ cells))
            (flag-plain delim c b h.0)
          ∙ (word_lem w x b (line ++ (c ∷ [])) cells h.1
              ∙ ap (λ l. pasts w (scan delim normal (length x) b (some l) cells))
                  (append_assoc line (c ∷ []) w)))

  seps_lem :
      (s x : Bytes) (b : Bool) (cells : Bytes)
      → All (IsDelim delim) s
      → scan delim normal (length (s ++ x)) b none (s ++ cells)
        ≡ pasts s (scan delim normal (length x) b none cells)
  unfolding scan
  seps_lem [] x b cells h = refl
  seps_lem (c ∷ s) x b cells h =
      let n = length (s ++ x) in
      ap
        (λ t.
          if t
          then past c (scan delim normal n b none (s ++ cells))
          else past c (scan delim normal n (b || (c == 0)) (some (c ∷ [])) (s ++ cells)))
        h.0
      ∙ ap (past c) (seps_lem s x b cells h.1)

  end_lem :
      (c n : ℕ) (b : Bool) (line cells : Bytes)
      → IsDelim delim c
      → scan delim normal (suc n) b (some line) (c ∷ cells)
        ≡ ended line (past (if normal then 0 else c) (scan delim normal n false none cells))
  unfolding scan
  end_lem c n b line cells h =
      ap
        (λ t.
          if t
          then ended line (past (if normal then 0 else c) (scan delim normal n false none cells))
          else past c (scan delim normal n (b || (c == 0)) (some (line ++ (c ∷ []))) cells))
        h

  start_lem :
      (c n : ℕ) (b : Bool) (cells : Bytes)
      → IsPlain delim c
      → scan delim normal (suc n) b none (c ∷ cells)
        ≡ past c (scan delim normal n b (some (c ∷ [])) cells)
  unfolding scan
  start_lem c n b cells h =
      ap
        (λ t.
          if t
          then past c (scan delim normal n b none cells)
          else past c (scan delim normal n (b || (c == 0)) (some (c ∷ [])) cells))
        h
      ∙ ap (λ z. past c (scan delim normal n z (some (c ∷ [])) cells)) (flag-plain delim c b h)

  -- The cells afterwards: the delimiter behind a line is cleared, if strings are to be normal.
  abbrev pub marked : List Line → Bytes → Bytes
  marked [] rest = rest
  marked (l ∷ ls) rest = l.text ++ ((if normal then 0 else l.sep) ∷ (l.seps ++ marked ls rest))

  pasts-some :
      (w : Bytes) (ls : List Bytes) (b : Bool) (r cells : Bytes)
      → pasts w (some (scanned ls b r cells)) ≡ some (scanned ls b r (w ++ cells))
  pasts-some [] ls b r cells = refl
  pasts-some (c ∷ w) ls b r cells = ap (past c) (pasts-some w ls b r cells)

  pub rest_lem :
      (w : Bytes) (b : Bool) (line cells : Bytes)
      → All (IsPlain delim) w
      → scan delim normal (length w) b (some line) (w ++ cells)
        ≡ some (scanned [] b (line ++ w) (w ++ cells))
  unfolding scan
  rest_lem w b line cells h =
      ap (λ x. scan delim normal (length x) b (some line) (w ++ cells)) (sym (append-nil w))
      ∙ (word_lem w [] b line cells h ∙ pasts-some w [] b (line ++ w) cells)

  shape : (w s x g : Bytes) (c : ℕ) → (w ++ (c ∷ (s ++ x))) ++ g ≡ w ++ (c ∷ (s ++ (x ++ g)))
  shape w s x g c = append_assoc w (c ∷ (s ++ x)) g ∙ ap (λ y. w ++ (c ∷ y)) (append_assoc s x g)

  -- What a line and the delimiters behind it add to the scan of the rest.
  abbrev add_line : Bytes → Bytes → Line → Option Scanned → Option Scanned
  add_line line w l o = pasts w (ended line (past (if normal then 0 else l.sep) (pasts l.seps o)))

  add_line-none : (line w : Bytes) (l : Line) → add_line line w l none ≡ none
  add_line-none line w l =
      ap (λ o. pasts w (ended line (past (if normal then 0 else l.sep) o))) (go l.seps) ∙ go w
    where
      go : (w : Bytes) → pasts w none ≡ none
      go [] = refl
      go (c ∷ w) = ap (past c) (go w)

  add_line-some :
      (line w : Bytes) (l : Line) (ls : List Bytes) (r cells : Bytes)
      → add_line line w l (some (scanned ls false r cells))
        ≡ some
            (scanned (line ∷ ls) false r (w ++ ((if normal then 0 else l.sep) ∷ (l.seps ++ cells))))
  add_line-some line w l ls r cells =
      ap (λ o. pasts w (ended line (past (if normal then 0 else l.sep) o)))
        (pasts-some l.seps ls false r cells)
      ∙ pasts-some w (line ∷ ls) false r ((if normal then 0 else l.sep) ∷ (l.seps ++ cells))

  -- A line and the delimiters behind it, from `line` on that was read already.
  line_lem :
      (l : Line) (x g : Bytes) (b : Bool) (line w : Bytes)
      → All (IsPlain delim) w
      → IsDelim delim l.sep
      → All (IsDelim delim) l.seps
      → scan delim normal
          (length (w ++ (l.sep ∷ (l.seps ++ x))))
          b
          (some line)
          ((w ++ (l.sep ∷ (l.seps ++ x))) ++ g)
        ≡ add_line (line ++ w) w l (scan delim normal (length x) false none (x ++ g))
  line_lem l x g b line w hw hs hss =
      let y = l.sep ∷ (l.seps ++ x) in
      ap (scan delim normal (length (w ++ y)) b (some line)) (shape w l.seps x g l.sep)
      ∙ (word_lem w y b line (l.sep ∷ (l.seps ++ (x ++ g))) hw
          ∙ (ap (pasts w)
                (end_lem l.sep (length (l.seps ++ x)) b (line ++ w) (l.seps ++ (x ++ g)) hs)
              ∙ ap (λ o. pasts w (ended (line ++ w) (past (if normal then 0 else l.sep) o)))
                  (seps_lem l.seps x false (x ++ g) hss)))

  next_line :
      (t : Bytes) (l : Line) (x g : Bytes)
      → t ≢ []
      → All (IsPlain delim) t
      → IsDelim delim l.sep
      → All (IsDelim delim) l.seps
      → scan delim normal
          (length (t ++ (l.sep ∷ (l.seps ++ x))))
          false
          none
          ((t ++ (l.sep ∷ (l.seps ++ x))) ++ g)
        ≡ add_line t t l (scan delim normal (length x) false none (x ++ g))
  next_line [] l x g ne ht hs hss = absurd (ne refl)
  next_line (c ∷ w) l x g ne ht hs hss =
      let y = w ++ (l.sep ∷ (l.seps ++ x)) in
      start_lem c (length y) false (y ++ g) ht.0
      ∙ ap (past c) (line_lem l x g false (c ∷ []) w ht.1 hs hss)

  -- The scan of all lines, by the scan of what is behind them.
  after_line :
      (l : Line) (ls : List Line) (rest : Bytes) (c : ℕ) (g : Bytes) (o : Option Scanned)
      → o
        ≡ add_line l.text l.text l
            (some (scanned (texts ls) false rest (marked ls rest ++ (c ∷ g))))
      → o ≡ some (scanned (texts (l ∷ ls)) false rest (marked (l ∷ ls) rest ++ (c ∷ g)))
  after_line l ls rest c g o e =
      e
      ∙ (add_line-some l.text l.text l (texts ls) rest (marked ls rest ++ (c ∷ g))
          ∙ ap (λ cells. some (scanned (l.text ∷ texts ls) false rest cells))
              (sym (shape l.text l.seps (marked ls rest) (c ∷ g) (if normal then 0 else l.sep))))

  -- Between two lines, in front of lines that are not empty and a byte that is no delimiter.
  between :
      (ls : List Line) (rest : Bytes) (c : ℕ) (g : Bytes)
      → All (IsLine delim) ls
      → All (λ l. l.text ≢ []) ls
      → All (IsPlain delim) rest
      → IsPlain delim c
      → scan delim normal (length (joined ls rest)) false none (joined ls rest ++ (c ∷ g))
        ≡ some (scanned (texts ls) false rest (marked ls rest ++ (c ∷ g)))
  unfolding scan
  between [] [] c g h k hr hc =
      ap
        (λ t.
          if t
          then past c (scan delim normal 0 false none g)
          else some (scanned [] false [] (c ∷ g)))
        hc
  between [] (r ∷ rest) c g h k hr hc =
      start_lem r (length rest) false (rest ++ (c ∷ g)) hr.0
      ∙ ap (past r) (rest_lem rest false (r ∷ []) (c ∷ g) hr.1)
  between (l ∷ ls) rest c g h k hr hc = after_line l ls rest c g _ (
      next_line l.text l (joined ls rest) (c ∷ g) k.0 h.0.0 h.0.1 h.0.2
      ∙ ap (add_line l.text l.text l) (between ls rest c g h.1 k.1 hr hc))

  -- From the start of the buffer.
  pub scan-joined :
      (ls : List Line) (rest : Bytes) (c : ℕ) (g : Bytes)
      → All (IsLine delim) ls
      → AreApart ls
      → All (IsPlain delim) rest
      → IsPlain delim c
      → scan delim normal (length (joined ls rest)) false (some []) (joined ls rest ++ (c ∷ g))
        ≡ some (scanned (texts ls) false rest (marked ls rest ++ (c ∷ g)))
  scan-joined [] rest c g h k hr hc = rest_lem rest false [] (c ∷ g) hr
  scan-joined (l ∷ ls) rest c g h k hr hc = after_line l ls rest c g _ (
      line_lem l (joined ls rest) (c ∷ g) false [] l.text h.0.0 h.0.1 h.0.2
      ∙ ap (add_line l.text l.text l) (between ls rest c g h.1 k hr hc))

  -- Nothing but delimiters behind the last line.
  overrun : (g : Bytes) → All (IsDelim delim) g → scan delim normal 0 false none g ≡ none
  unfolding scan
  overrun [] h = refl
  overrun (c ∷ g) h =
      ap
        (λ t.
          if t
          then past c (scan delim normal 0 false none g)
          else some (scanned [] false [] (c ∷ g)))
        h.0
      ∙ ap (past c) (overrun g h.1)

  between_overrun :
      (ls : List Line) (g : Bytes)
      → All (IsLine delim) ls
      → All (λ l. l.text ≢ []) ls
      → All (IsDelim delim) g
      → scan delim normal (length (joined ls [])) false none (joined ls [] ++ g) ≡ none
  between_overrun [] g h k hg = overrun g hg
  between_overrun (l ∷ ls) g h k hg =
      next_line l.text l (joined ls []) g k.0 h.0.0 h.0.1 h.0.2
      ∙ (ap (add_line l.text l.text l) (between_overrun ls g h.1 k.1 hg)
          ∙ add_line-none l.text l.text l)

  pub scan-overrun :
      (l : Line) (ls : List Line) (g : Bytes)
      → All (IsLine delim) (l ∷ ls)
      → AreApart (l ∷ ls)
      → All (IsDelim delim) g
      → scan delim normal (length (joined (l ∷ ls) [])) false (some []) (joined (l ∷ ls) [] ++ g)
        ≡ none
  scan-overrun l ls g h k hg =
      line_lem l (joined ls []) g false [] l.text h.0.0 h.0.1 h.0.2
      ∙ (ap (add_line l.text l.text l) (between_overrun ls g h.1 k hg)
          ∙ add_line-none l.text l.text l)
