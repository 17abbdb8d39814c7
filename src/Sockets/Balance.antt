-- ===== src/Sockets/Balance.antt =====
-- What is opened and closed, begun and ended, by the calls of Sockets.antt.
use highp_mmorpg.Prelude.{
  ℕ, ◌+◌, ◌≡◌, refl, ap, ◌∙◌, Bool, true, false, List, [], ◌∷◌, ◌++◌, Option, none, some, arith,
}
use highp_mmorpg.Sockets.{Call, started, cleaned_up, opened, closed, AsyncSocket, fresh}

abbrev pub is_opened : Call → ℕ
is_opened (opened n) = 1
is_opened _ = 0

abbrev pub is_closed : Call → ℕ
is_closed (closed n) = 1
is_closed _ = 0

abbrev pub is_started : Call → ℕ
is_started started = 1
is_started _ = 0

abbrev pub is_cleaned_up : Call → ℕ
is_cleaned_up cleaned_up = 1
is_cleaned_up _ = 0

unfoldable pub tally : (Call → ℕ) → List Call → ℕ
tally weight [] = 0
tally weight (c ∷ cs) = weight c + tally weight cs

tally-append :
    (weight : Call → ℕ) (cs : List Call) (c : Call)
    → tally weight (cs ++ c ∷ []) ≡ tally weight cs + weight c
unfolding tally
tally-append weight [] c = omega arith
tally-append weight (x ∷ cs) c = ap (λ n. weight x + n) (tally-append weight cs c) ∙ omega arith

abbrev pub held : Option ℕ → ℕ
held none = 0
held (some n) = 1

abbrev pub flag : Bool → ℕ
flag true = 1
flag false = 0

-- The sockets that were opened are those that were closed and the one that is held, and so for the uses of
-- Winsock that were begun.
pub record IsBalanced (s : AsyncSocket) : Type 0 where
  pub sockets : tally is_opened s.calls ≡ tally is_closed s.calls + held s.socket_handle
  pub uses : tally is_started s.calls ≡ tally is_cleaned_up s.calls + flag s.wsa_started

pub fresh-IsBalanced : IsBalanced fresh
unfolding tally
fresh-IsBalanced = record { sockets = refl; uses = refl }

-- A call more, with what the socket then holds.
pub call-IsBalanced :
    (c : Call) (s s' : AsyncSocket)
    → IsBalanced s
    → s'.calls ≡ s.calls ++ c ∷ []
    → is_opened c + held s.socket_handle ≡ is_closed c + held s'.socket_handle
    → is_started c + flag s.wsa_started ≡ is_cleaned_up c + flag s'.wsa_started
    → IsBalanced s'
call-IsBalanced c s s' b e h k = record {
  sockets = omega (
    arith,
    b.sockets,
    h,
    ap (tally is_opened) e,
    tally-append is_opened s.calls c,
    ap (tally is_closed) e,
    tally-append is_closed s.calls c,
  );
  uses = omega (
    arith,
    b.uses,
    k,
    ap (tally is_started) e,
    tally-append is_started s.calls c,
    ap (tally is_cleaned_up) e,
    tally-append is_cleaned_up s.calls c,
  );
}
