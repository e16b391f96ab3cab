-- ===== src/Server/Prompt.antt =====
-- When `GET /wait` of apps/server-go/internal/server/wait.go answers.
use tail_claude_mux.Server.Waits.{
  wait_loop, timed_out, settled, saw, cannot, is_settled, Wake, WaitReply, Look,
}
use tail_claude_mux.Wire.{is_terminal_status, Status}
use tail_claude_mux.Base.{
  all, ap, codes, text_eq, option_eq, nat_eq, arith, ◌∷◌, [], List, some, none, not, false, true,
  Bool, refl, ◌≡◌,
}

-- The statuses in which an agent is at work, or at least not known to have stopped.
abbrev pub goes_on : Status → Bool
goes_on Status.idle = true
goes_on Status.running = true
goes_on (Status.other name) = true
goes_on Status.done = false
goes_on Status.error = false
goes_on Status.interrupted = false
goes_on Status.waiting = false

-- The looks after which a wait goes on: the agent is there, and at work.
abbrev pub keeps_waiting : Look → Bool
keeps_waiting (saw none) = false
keeps_waiting (saw (some s)) = goes_on s
keeps_waiting (cannot e) = false

-- What a look is answered with: the agent's status, or that it is gone, or the failure, and whether
-- the time was up.
abbrev pub reply_to : Look → Bool → WaitReply
reply_to (saw none) late = WaitReply.answered (Status.other (codes "gone")) late
reply_to (saw (some s)) late = WaitReply.answered s late
reply_to (cannot e) late = WaitReply.refused e

goes_on-is_settled : (s : Status) → is_settled s ≡ not (goes_on s)
unfolding is_terminal_status
goes_on-is_settled Status.idle = refl
goes_on-is_settled Status.running = refl
goes_on-is_settled (Status.other name) = refl
goes_on-is_settled Status.done = refl
goes_on-is_settled Status.error = refl
goes_on-is_settled Status.interrupted = refl
goes_on-is_settled Status.waiting = refl

settled-some :
    (look : Look) → keeps_waiting look ≡ false → settled look ≡ some (reply_to look false)
unfolding settled
settled-some (saw none) h = refl
settled-some (saw (some s)) h = rw (goes_on-is_settled s, h) refl
settled-some (cannot e) h = refl

settled-none : (look : Look) → keeps_waiting look ≡ true → settled look ≡ none
unfolding settled
settled-none (saw none) h = absurd (ground arith)
settled-none (saw (some s)) h = rw (goes_on-is_settled s, h) refl
settled-none (cannot e) h = absurd (ground arith)

timed_out-reply_to : (look : Look) → timed_out look ≡ reply_to look true
unfolding timed_out
timed_out-reply_to (saw none) = refl
timed_out-reply_to (saw (some s)) = refl
timed_out-reply_to (cannot e) = refl

settled_first :
    (look : Look) (wakes : List (Wake Look))
    → keeps_waiting look ≡ false
    → wait_loop look wakes ≡ some (reply_to look false)
unfolding wait_loop
settled_first look [] h = settled-some look h
settled_first look (wake ∷ wakes) h = rw (wait_loop, settled-some look h) refl

-- The polls that the loop sees before something ends it.
abbrev pub polls : List Look → List (Wake Look) → List (Wake Look)
polls [] rest = rest
polls (l ∷ ls) rest = Wake.poll l ∷ polls ls rest

through :
    (look : Look) (ls : List Look) (rest : List (Wake Look)) (wake : Wake Look) (reply : WaitReply)
    → all keeps_waiting (look ∷ ls) ≡ true
    → ((l : Look) → settled l ≡ none → wait_loop l (wake ∷ rest) ≡ some reply)
    → wait_loop look (polls ls (wake ∷ rest)) ≡ some reply
unfolding wait_loop
through look [] rest wake reply h f = f look (settled-none look (ground arith))
through look (l ∷ ls) rest wake reply h f =
    rw (wait_loop, settled-none look (ground arith)) (through l ls rest wake reply (ground arith) f)

still_waiting :
    (look : Look) (ls : List Look)
    → all keeps_waiting (look ∷ ls) ≡ true
    → wait_loop look (polls ls []) ≡ none
unfolding wait_loop
still_waiting look [] h = settled-none look (ground arith)
still_waiting look (l ∷ ls) h =
    rw (wait_loop, settled-none look (ground arith)) (still_waiting l ls (ground arith))

-- While the agent is there and idle, running or in a status that is not known, a wait goes on. It
-- answers at the first poll that finds it done, failed, interrupted, waiting, gone or ambiguous, and
-- so it does when it finds it so at once; at the deadline it answers with what it finds there, a
-- running agent too, as timed out; and a caller that hangs up ends it, whatever would have woken it
-- afterwards.
pub wait_loop-prompt :
    (look : Look) (ls : List Look) (last at_end : Look) (rest : List (Wake Look))
    → all keeps_waiting (look ∷ ls) ≡ true
    → keeps_waiting last ≡ false
    → (wait_loop look (polls ls []) ≡ none)
      × (wait_loop last rest ≡ some (reply_to last false))
      × (wait_loop look (polls ls (Wake.poll last ∷ rest)) ≡ some (reply_to last false))
      × (wait_loop look (polls ls (Wake.deadline at_end ∷ rest)) ≡ some (reply_to at_end true))
      × (wait_loop look (polls ls (Wake.cancelled ∷ rest)) ≡ some WaitReply.hung_up)
unfolding wait_loop
wait_loop-prompt look ls last at_end rest h s = (
  still_waiting look ls h,
  settled_first last rest s,
  through look ls rest (Wake.poll last) (reply_to last false) h
      (λ l e. rw (wait_loop, e) (settled_first last rest s)),
  through look ls rest (Wake.deadline at_end) (reply_to at_end true) h
      (λ l e. rw (wait_loop, e) (ap some (timed_out-reply_to at_end))),
  through look ls rest Wake.cancelled WaitReply.hung_up h (λ l e. rw (wait_loop, e) refl),
)
