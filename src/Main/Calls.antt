-- ===== src/Main/Calls.antt =====
-- Calls of `kernel_init` that succeed, one after another and on parts of the state.
use rp4os.Base.{ℕ, ◌≡◌, refl, ap, Bool, true, String, arith, ◌==◌, if◌then◌else◌}
use rp4os.Base.Outcome.{Outcome, ok, panic}
use rp4os.Base.Exec.{Exec, ◌>>=◌, ◌>>◌}
use rp4os.Sync.{Machine, transition_to_single_core_main}
use rp4os.Board.{view, zoom}
use rp4os.Main.{Kernel, expect_value}

-- The whole state after a call on a part of it.
abbrev pub put_back : {W D : Type 0} → (D → W → W) → Machine W → Machine D → Machine W
put_back set_part m after = record {
  kernel_state = after.kernel_state;
  daif = after.daif;
  shared = set_part after.shared m.shared;
}

-- A call on a part of the state that succeeds.
pub zoom-ok :
    {W D A : Type 0} (get_part : W → D) (set_part : D → W → W) (f : Exec (Machine D) A)
    (m : Machine W) (a : A) (after : Machine D)
    → f (view get_part m) ≡ (ok a, after)
    → zoom get_part set_part f m ≡ (ok a, put_back set_part m after)
zoom-ok {D = D} {A = A} get_part set_part f m a after e =
    ap (λ (r : Outcome A × Machine D). (r.0, put_back set_part m r.1)) e

-- Two calls.
pub two_in_turn :
    {S : Type 0} (a b : Exec S (Unit {0})) (s t u : S)
    → a s ≡ (ok tt, t)
    → b t ≡ (ok tt, u)
    → (a >> b) s ≡ (ok tt, u)
two_in_turn a b s t u ha hb = rw (ha, hb) refl

-- The transition out of the init phase.
pub transition-done :
    {H : Type 0} (now : Machine (Kernel H))
    → now.kernel_state ≡ 0
    → transition_to_single_core_main now ≡ (ok tt, record now { kernel_state = 1 })
unfolding transition_to_single_core_main
transition-done now starting =
    let test : (now.kernel_state == 0) ≡ true = ground arith in
    ap
      (λ (b : Bool).
        if b
        then (ok tt, record now { kernel_state = 1 })
        else (panic "transition_to_single_core_main() called while state != Init", now))
      test

-- The steps of `kernel_init` that succeed one after another.
pub steps_in_turn :
    {S : Type 0} (a : Exec S (Unit {0})) (b : Exec S ℕ) (c : ℕ → Exec S (Unit {0}))
    (d e f g h : Exec S (Unit {0})) (addr : ℕ) (m m1 m2 m3 m4 m5 m6 m7 m8 : S)
    → a m ≡ (ok tt, m1)
    → b m1 ≡ (ok addr, m2)
    → c addr m2 ≡ (ok tt, m3)
    → d m3 ≡ (ok tt, m4)
    → e m4 ≡ (ok tt, m5)
    → f m5 ≡ (ok tt, m6)
    → g m6 ≡ (ok tt, m7)
    → h m7 ≡ (ok tt, m8)
    → (a >> (b >>= λ x. c x >> (d >> (e >> (f >> (g >> h)))))) m ≡ (ok tt, m8)
steps_in_turn a b c d e f g h addr m m1 m2 m3 m4 m5 m6 m7 m8 ha hb hc hd he hf hg hh =
    rw (ha, hb, hc, hd, he, hf, hg, hh) refl

-- A succeeding call does not panic.
pub expect_value-ok :
    {W A : Type 0} (message : String) (f : Exec W A) (a : A) (w after : W)
    → f w ≡ (ok a, after)
    → expect_value message f w ≡ (ok a, after)
expect_value-ok message f a w after e = rw e refl
