-- ===== src/Transport/Fragments.antt =====
-- Reading whole byte strings, however the stream is cut into pieces.
use mathlib.Core.List.{append_assoc, append-nil}
use abacus_rts.Base.{
  ℕ, zero, suc, ◌+◌, ◌-◌, ◌≤◌, ◌<◌, ◌≡◌, refl, sym, ap, ◌∙◌, subst, inl, inr, ◌⊎◌, Bool, false,
  ◌&&◌, some, List, [], ◌∷◌, ◌++◌, length, length-append, take, drop, take-append, drop-append, ltb,
  ◌==◌, All, ok, Bool-cases, ltb→lt, ==_false, lt→leb_false, arith,
}
use abacus_rts.Transport.Stream.{
  ReadEvent, chunk, interrupted, blocked, failed, Received, read_exact_retrying,
}

-- The bytes that the events bring.
abbrev pub pending : List ReadEvent → List ℕ
pending [] = []
pending (chunk bytes ∷ es) = bytes ++ pending es
pending (interrupted ∷ es) = pending es
pending (blocked errno ∷ es) = pending es
pending (failed errno ∷ es) = pending es

-- The stream is open: it does not end, and no call fails.
abbrev pub IsOpen : ReadEvent → Type 0
IsOpen (chunk bytes) = 0 < length bytes
IsOpen interrupted = Unit {0}
IsOpen (blocked errno) = Unit {0}
IsOpen (failed errno) = ⊥

-- Bytes are there before a call would block.
abbrev pub IsReady : List ReadEvent → Type 0
IsReady [] = ⊥
IsReady (chunk bytes ∷ es) = Unit {0}
IsReady (interrupted ∷ es) = IsReady es
IsReady (blocked errno ∷ es) = ⊥
IsReady (failed errno ∷ es) = ⊥

-- Of two cuts of a list, the longer piece begins with the shorter one.
pub append-split :
    (xs ys us vs : List ℕ)
    → xs ++ ys ≡ us ++ vs
    → length xs ≤ length us
    → (ws : List ℕ) × (us ≡ xs ++ ws) × (ys ≡ ws ++ vs)
append-split [] ys us vs q h = (us, refl, q)
append-split (x ∷ xs) ys [] vs q h = absurd (omega arith)
append-split (x ∷ xs) ys (u ∷ us) vs q h =
    let (ws, a, b) = append-split xs ys us vs (cc) (omega arith) in (ws, cc, b)

pub take_all : (n : ℕ) (xs : List ℕ) → length xs ≤ n → take n xs ≡ xs
take_all zero [] h = refl
take_all (suc n) [] h = refl
take_all zero (x ∷ xs) h = absurd (omega arith)
take_all (suc n) (x ∷ xs) h = ap (◌∷◌ x) (take_all n xs (omega arith))

-- A read with some bytes in its buffer, or not at the start of a frame, does not give up.
abbrev pub Continues : Bool → List ℕ → Type 0
Continues start buf = (length buf == 0 && start) ≡ false

-- The receiving ends with the value, and leaves the events that bring `more`.
pub record HasRead {A : Type 0} (result : Received A) (value : A) (more : List ℕ) : Type 0 where
  pub rest : List ReadEvent
  pub returns : result ≡ some (ok value, rest)
  pub leaves : pending rest ≡ more
  pub stays : All IsOpen rest

-- What a read of `n` bytes makes of a longer chunk.
abbrev cut_at : ℕ → List ℕ → List ReadEvent → List ℕ → Received (List ℕ)
cut_at n buf es bytes = some (ok (buf ++ take n bytes), chunk (drop n bytes) ∷ es)

cut_at-append :
    (want left buf : List ℕ) (es : List ReadEvent)
    → cut_at (length want) buf es (want ++ left) ≡ some (ok (buf ++ want), chunk left ∷ es)
cut_at-append want left buf es = rw (take-append want left, drop-append want left)

module _ (total : ℕ) (start : Bool) where
  -- The buffer is full.
  full :
      (es : List ReadEvent) (buf more : List ℕ)
      → All IsOpen es
      → length buf + 0 ≡ total
      → pending es ≡ more
      → HasRead (read_exact_retrying total start es buf) (buf ++ []) more
  unfolding read_exact_retrying
  full [] buf more o size q = record {
    rest = [];
    returns = rw append-nil (ground arith);
    leaves = q;
    stays = o;
  }
  full (chunk b ∷ es) buf more o size q = record {
    rest = chunk b ∷ es;
    returns = rw append-nil (ground arith);
    leaves = q;
    stays = o;
  }
  full (interrupted ∷ es) buf more o size q = record {
    rest = interrupted ∷ es;
    returns = rw append-nil (ground arith);
    leaves = q;
    stays = o;
  }
  full (blocked e ∷ es) buf more o size q = record {
    rest = blocked e ∷ es;
    returns = rw append-nil (ground arith);
    leaves = q;
    stays = o;
  }
  full (failed e ∷ es) buf more o size q = absurd o.0

  -- With some bytes in the buffer, or not at the start of a frame, or with bytes ready, a stream
  -- that stays open and brings some bytes and then more fills the rest of the buffer with exactly
  -- the bytes it lacks, and exactly the others are left, wherever the chunks end.
  pub read_exact_retrying-HasRead :
      (es : List ReadEvent) (buf want more : List ℕ)
      → All IsOpen es
      → Continues start buf ⊎ IsReady es
      → length buf + length want ≡ total
      → pending es ≡ want ++ more
      → HasRead (read_exact_retrying total start es buf) (buf ++ want) more
  unfolding read_exact_retrying
  read_exact_retrying-HasRead es buf [] more o c size q = full es buf more o size q
  read_exact_retrying-HasRead [] buf (w ∷ ws) more o c size q = cc
  read_exact_retrying-HasRead (interrupted ∷ es) buf (w ∷ ws) more o c size q =
      rw (lt→leb_false total (length buf) (omega arith))
        (read_exact_retrying-HasRead es buf (w ∷ ws) more o.1 c size q)
  read_exact_retrying-HasRead (blocked e ∷ es) buf (w ∷ ws) more o (inl c) size q =
      rw (lt→leb_false total (length buf) (omega arith), c)
        (read_exact_retrying-HasRead es buf (w ∷ ws) more o.1 (inl c) size q)
  read_exact_retrying-HasRead (blocked e ∷ es) buf (w ∷ ws) more o (inr c) size q = absurd c
  read_exact_retrying-HasRead (failed e ∷ es) buf (w ∷ ws) more o c size q = absurd o.0
  read_exact_retrying-HasRead (chunk b ∷ es) buf (w ∷ ws) more o c size q =
      let room : total - length buf ≡ length (w ∷ ws) = omega arith in
      rw (lt→leb_false total (length buf) (omega arith), ==_false (length b) 0 (omega (arith, o.0)))
        (elim (Bool-cases (ltb (total - length buf) (length b))) [
          | inl long ↦
              rw (long, room)
                (let (left, cut, tail) =
                    append-split (w ∷ ws) more b (pending es) (sym q) (ground arith) in
                  let sizes : length b ≡ length (w ∷ ws) + length left =
                    ap length cut ∙ length-append (w ∷ ws) left in
                  record {
                    rest = chunk left ∷ es;
                    returns =
                        ap (cut_at (length (w ∷ ws)) buf es) cut
                        ∙ cut_at-append (w ∷ ws) left buf es;
                    leaves = sym tail;
                    stays = (omega (arith, sizes, ltb→lt _ _ long), o.1);
                  })
          | inr short ↦
              rw (short, take_all (total - length buf) b (ground arith))
                (let (left, cut, tail) =
                    append-split b (pending es) (w ∷ ws) more q (ground arith) in
                  let sizes : length (w ∷ ws) ≡ length b + length left =
                    ap length cut ∙ length-append b left in
                  subst (λ got. HasRead (read_exact_retrying total start es (buf ++ b)) got more)
                    (append_assoc buf b left ∙ ap (◌++◌ buf) (sym cut))
                    (read_exact_retrying-HasRead es (buf ++ b) left more o.1
                      (inl (
                        rw (
                          ==_false (length (buf ++ b)) 0
                            (omega (arith, length-append buf b, o.0)))))
                      (omega (arith, length-append buf b, sizes)) tail))
        ])
