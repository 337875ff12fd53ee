-- ===== src/Wire/Window/Fseq/Run.antt =====
-- A run of frames and jumps.
use rendr.Common.{
  ℕ, ◌%◌, ◌^◌, ◌≤◌, ◌≡◌, refl, sym, ap₂, ◌∙◌, subst, List, [], ◌∷◌, arith, lt→ltb, le→ltb, ne→==,
  replicate,
}
use rendr.Wire.Window.{FseqWindow, accept, init, jump}
use rendr.Wire.Window.Ring.{length-set_ring}
use rendr.Wire.Window.Cells.{ring-zeros, ring-ones}
use rendr.Wire.Window.Views.{with_one, Views, far-Views}
use rendr.Wire.Window.Fseq.{
  Taken, offer_frame, Event, offered, jumped, none_seen, from_first, jump_frame, verdicts, accepts,
  InReach,
}
use rendr.Wire.Window.Fseq.Step.{Agrees, Follows, g, step, same_set}

jump-Agrees : (w : FseqWindow) (f : ℕ) → Agrees (jump w (f % 2 ^ 32)) (jump_frame f)
unfolding jump
jump-Agrees w f = record {
  len = length-set_ring (replicate 128 0) (f % 2 ^ 32);
  top_is = refl;
  views =
      subst (λ b. Views 7 b f (with_one f none_seen))
        (sym (same_set (replicate 128 0) refl (f % 2 ^ 32) f (omega arith)))
        (far-Views 7 none_seen (replicate 128 0) f refl (ring-zeros 128) (λ j near. refl));
  beyond = λ j after. rw (ne→== j f (omega arith)) refl;
}

init-Agrees : (first : ℕ) → 1 ≤ first → Agrees (init (first % 2 ^ 32)) (from_first first)
unfolding init
init-Agrees first one = record {
  len = refl;
  top_is = omega arith;
  views = λ j le near. ring-ones j ∙ rw (lt→ltb j first (omega arith)) refl;
  beyond = λ j after. le→ltb j first (omega arith);
}

follows :
    (w : FseqWindow) (t : Taken) (events : List Event)
    → Agrees w t
    → InReach t events
    → accepts w events ≡ verdicts t events
unfolding Follows g
follows w t [] a r = refl
follows w t (offered f ∷ rest) a (near, far, r) =
    let (same, next) = step w t a f near far in
    ap₂ (λ v vs. v ∷ vs) same (follows (accept w (f % 2 ^ 32)).1 (offer_frame t f).1 rest next r)
follows w t (jumped f ∷ rest) a r =
    follows (jump w (f % 2 ^ 32)) (jump_frame f) rest (jump-Agrees w f) r

-- From the window that a direction starts with, the verdicts on any run of frames and jumps are
-- those of the unbounded set, as long as each frame offered is less than half the range of a
-- uint32 from the newest accepted by then.
pub accepts-verdicts :
    (first : ℕ) (events : List Event)
    → 1 ≤ first
    → InReach (from_first first) events
    → accepts (init (first % 2 ^ 32)) events ≡ verdicts (from_first first) events
accepts-verdicts first events one r =
    follows (init (first % 2 ^ 32)) (from_first first) events (init-Agrees first one) r
