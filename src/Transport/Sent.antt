-- ===== src/Transport/Sent.antt =====
-- What a writing leaves with the kernel.
use abacus_rts.Base.{
  ℕ, zero, suc, ◌≤◌, ◌<◌, ◌≡◌, refl, sym, ap, ◌∙◌, subst, ◌≢◌, inl, inr, ◌⊎◌, false, some, none,
  List, [], ◌∷◌, ◌++◌, length, take, drop, length-drop, ◌==◌, All, Result, ok, err, Bool-cases,
  Option-cases, ==_false, arith,
}
use mathlib.Core.List.{append_assoc}
use mathlib.Core.Option.{some-injective}
use abacus_rts.Core.Error.{TransportError}
use abacus_rts.Transport.Stream.{
  WriteEvent, accepted, write_interrupted, write_failed, Written, write_all_retrying, after_taking,
}

-- All of the bytes were taken, or an error is returned and some bytes of the end were not.
abbrev pub Sent : List ℕ → Result TransportError (Unit {0}) → List ℕ → Type 0
Sent buf r sent =
    ((r ≡ ok tt) × (sent ≡ buf))
    ⊎ ((e : TransportError) × (unsent : List ℕ) × (r ≡ err e)
        × (buf ≡ sent ++ unsent)
        × (unsent ≢ []))

take-drop : (n : ℕ) (xs : List ℕ) → take n xs ++ drop n xs ≡ xs
take-drop zero xs = refl
take-drop (suc n) [] = refl
take-drop (suc n) (x ∷ xs) = ap (◌∷◌ x) (take-drop n xs)

Sent-after_taking :
    (n : ℕ) (buf : List ℕ) {r : Result TransportError (Unit {0})} {sent : List ℕ}
    → Sent (drop n buf) r sent
    → Sent buf r (take n buf ++ sent)
Sent-after_taking n buf (inl (q, all)) = inl (q, rw all (take-drop n buf))
Sent-after_taking n buf {sent = sent} (inr (e, unsent, q, cut, some_left)) = inr (
  e,
  unsent,
  q,
  sym (take-drop n buf) ∙ ap (◌++◌ (take n buf)) cut ∙ sym (append_assoc (take n buf) sent unsent),
  some_left,
)

left_over : (b : ℕ) (buf : List ℕ) → (length (b ∷ buf) == 0) ≡ false
left_over b buf = ==_false (length (b ∷ buf)) 0 (omega arith)

write_all_retrying-nil :
    (epipe : ℕ) (es : List WriteEvent) → write_all_retrying epipe es [] ≡ some (ok tt, [])
unfolding write_all_retrying
write_all_retrying-nil epipe [] = refl
write_all_retrying-nil epipe (accepted n ∷ es) = refl
write_all_retrying-nil epipe (write_interrupted ∷ es) = refl
write_all_retrying-nil epipe (write_failed errno ∷ es) = refl

Sent-nothing :
    {r : Result TransportError (Unit {0})} {sent : List ℕ}
    → ◌≡◌ {A = Written} (some (ok tt, [])) (some (r, sent))
    → Sent [] r sent
Sent-nothing q = subst (λ x. Sent [] x.0 x.1) (some-injective _ _ q) (inl (refl, refl))

Sent-none_taken :
    (b : ℕ) (buf : List ℕ) {e : TransportError} {r : Result TransportError (Unit {0})}
    {sent : List ℕ}
    → ◌≡◌ {A = Written} (some (err e, [])) (some (r, sent))
    → Sent (b ∷ buf) r sent
Sent-none_taken b buf {e} q =
    subst (λ x. Sent (b ∷ buf) x.0 x.1) (some-injective _ _ q)
      (inr (e, b ∷ buf, refl, refl, λ z. cc))

-- When a writing returns, the kernel has taken all of the bytes, in order and once each, or an
-- error is returned and the kernel has taken a proper beginning of them.
pub write_all_retrying-Sent :
    (epipe : ℕ) (es : List WriteEvent) (buf : List ℕ) {r : Result TransportError (Unit {0})}
    {sent : List ℕ}
    → write_all_retrying epipe es buf ≡ some (r, sent)
    → Sent buf r sent
unfolding write_all_retrying
write_all_retrying-Sent epipe es [] q = Sent-nothing (sym (write_all_retrying-nil epipe es) ∙ q)
write_all_retrying-Sent epipe [] (b ∷ buf) {r} {sent} q =
    let bad : ◌≡◌ {A = Written} none (some (r, sent)) = rw (left_over b buf) at q in cc (bad)
write_all_retrying-Sent epipe (accepted n ∷ es) (b ∷ buf) {r} {sent} q =
    elim (Bool-cases (n == 0)) [
      | inl stopped ↦ Sent-none_taken b buf (rw (left_over b buf, stopped) at q)
      | inr taken ↦
          let q' : after_taking (take n (b ∷ buf)) (write_all_retrying epipe es (drop n (b ∷ buf)))
              ≡ some (r, sent) =
            rw (left_over b buf, taken) at q in
          elim (Option-cases (write_all_retrying epipe es (drop n (b ∷ buf)))) [
            | inl waits ↦
                let bad : ◌≡◌ {A = Written} none (some (r, sent)) = rw waits at q' in cc (bad)
            | inr ((r', sent'), went) ↦
                subst (λ x. Sent (b ∷ buf) x.0 x.1) (some-injective _ _ (rw went at q'))
                  (Sent-after_taking n (b ∷ buf)
                    (write_all_retrying-Sent epipe es (drop n (b ∷ buf)) went))
          ]
    ]
write_all_retrying-Sent epipe (write_interrupted ∷ es) (b ∷ buf) q =
    write_all_retrying-Sent epipe es (b ∷ buf) (rw (left_over b buf) at q)
write_all_retrying-Sent epipe (write_failed errno ∷ es) (b ∷ buf) q =
    Sent-none_taken b buf (rw (left_over b buf) at q)

-- Every call takes a byte at least, or is interrupted.
abbrev pub IsWriting : WriteEvent → Type 0
IsWriting (accepted n) = 0 < n
IsWriting write_interrupted = Unit {0}
IsWriting (write_failed errno) = ⊥

-- The calls that take bytes.
abbrev pub calls_accepted : List WriteEvent → ℕ
calls_accepted [] = 0
calls_accepted (accepted n ∷ es) = suc (calls_accepted es)
calls_accepted (write_interrupted ∷ es) = calls_accepted es
calls_accepted (write_failed errno ∷ es) = calls_accepted es

-- A writing ends, with all of the bytes taken, when no call fails and there are as many calls that
-- take some bytes as there are bytes, however often it is interrupted between them.
pub write_all_retrying-eq-some :
    (epipe : ℕ) (es : List WriteEvent) (buf : List ℕ)
    → All IsWriting es
    → length buf ≤ calls_accepted es
    → write_all_retrying epipe es buf ≡ some (ok tt, buf)
unfolding write_all_retrying
write_all_retrying-eq-some epipe [] [] o enough = refl
write_all_retrying-eq-some epipe [] (b ∷ buf) o enough = absurd (omega arith)
write_all_retrying-eq-some epipe (write_failed errno ∷ es) buf o enough = absurd o.0
write_all_retrying-eq-some epipe (write_interrupted ∷ es) [] o enough = refl
write_all_retrying-eq-some epipe (write_interrupted ∷ es) (b ∷ buf) o enough =
    rw (left_over b buf) (write_all_retrying-eq-some epipe es (b ∷ buf) o.1 enough)
write_all_retrying-eq-some epipe (accepted n ∷ es) [] o enough = refl
write_all_retrying-eq-some epipe (accepted n ∷ es) (b ∷ buf) o enough =
    rw
      (
        left_over b buf,
        ==_false n 0 (omega (arith, o.0)),
        write_all_retrying-eq-some epipe es (drop n (b ∷ buf)) o.1
            (omega (arith, length-drop n (b ∷ buf), o.0)),
      )
      (ap (λ x. some (ok tt, x)) (take-drop n (b ∷ buf)))

-- The calls that are not interrupted.
abbrev pub calls_answered : List WriteEvent → ℕ
calls_answered [] = 0
calls_answered (accepted n ∷ es) = suc (calls_answered es)
calls_answered (write_interrupted ∷ es) = calls_answered es
calls_answered (write_failed errno ∷ es) = suc (calls_answered es)

after_taking-ne-none : (taken : List ℕ) (w : Written) → w ≢ none → after_taking taken w ≢ none
after_taking-ne-none taken none h = h
after_taking-ne-none taken (some (r, sent)) h = λ q. cc

write_all_retrying-ne-none :
    (epipe : ℕ) (es : List WriteEvent) (buf : List ℕ)
    → length buf ≤ calls_answered es
    → write_all_retrying epipe es buf ≢ none
unfolding write_all_retrying
write_all_retrying-ne-none epipe es [] enough = rw (write_all_retrying-nil epipe es) (λ q. cc)
write_all_retrying-ne-none epipe [] (b ∷ buf) enough = absurd (omega arith)
write_all_retrying-ne-none epipe (accepted n ∷ es) (b ∷ buf) enough = elim (Bool-cases (n == 0)) [
  | inl stopped ↦ rw (left_over b buf, stopped) (λ q. cc)
  | inr taken ↦
      let less : length (drop n (b ∷ buf)) ≤ calls_answered es =
        ground (arith, length-drop n (b ∷ buf)) in
      rw (left_over b buf, taken)
        (after_taking-ne-none _ _ (write_all_retrying-ne-none epipe es _ less))
]
write_all_retrying-ne-none epipe (write_interrupted ∷ es) (b ∷ buf) enough =
    rw (left_over b buf) (write_all_retrying-ne-none epipe es (b ∷ buf) enough)
write_all_retrying-ne-none epipe (write_failed errno ∷ es) (b ∷ buf) enough =
    rw (left_over b buf) (λ q. cc)

-- A writing returns when as many calls are not interrupted as there are bytes; the kernel has then
-- taken all of the bytes, in order and once each, or an error is returned and the kernel has taken
-- a proper beginning of them.
pub write_all_retrying_ends :
    (epipe : ℕ) (es : List WriteEvent) (buf : List ℕ)
    → length buf ≤ calls_answered es
    → (r : Result TransportError (Unit {0})) × (sent : List ℕ) × (write_all_retrying epipe es buf
        ≡ some (r, sent))
      × Sent buf r sent
write_all_retrying_ends epipe es buf enough =
    elim (Option-cases (write_all_retrying epipe es buf)) [
      | inl waits ↦ absurd (write_all_retrying-ne-none epipe es buf enough waits)
      | inr ((r, sent), e) ↦ (r, sent, e, write_all_retrying-Sent epipe es buf e)
    ]
