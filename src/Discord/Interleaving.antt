-- ===== src/Discord/Interleaving.antt =====
-- The tasks of one server, interleaved: a handler that waits for `user_exists` goes on in whatever
-- state the others have reached.
use mathlib.Core.Path.{subst}
use cs.Base.{ℕ, ◌+◌, ◌<◌, ◌≡◌, ap, true, some, text_eq}
use cs.Base.Text.{Text}
use cs.Base.Decimal.{usize_mod}
use cs.Discord.Types.{AppState, new_app_state, StateResult, UserExistsFn}
use cs.Discord.Messages.{format_id}
use cs.Discord.Operations.{
  create_user, create_channel, join_channel, leave_channel, send_message, replicate_send_message,
  channel_name_is_valid,
}
use cs.Discord.Invariant.{IsValid, Evolves, Evolves-refl, Evolves-trans, new_app_state-IsValid}
use cs.Discord.Users.{create_user-Evolves, create_channel-Evolves}
use cs.Discord.Joining.{join_channel-Evolves}
use cs.Discord.Leaving.{leave_channel-Evolves}
use cs.Discord.Sends.{HasRoom, send_message-Evolves}
use cs.Discord.Members.{next_id}
use cs.Discord.Replication.{replicate_send_message-Evolves}

mutual
  -- One call, from its start to its end; a call that waits has a run of other calls inside.
  pub data Step : AppState → AppState → Type 0 where
    creates_user :
        {s s' : AppState} {r : StateResult (Unit {0})} (u : Text)
        → create_user s u ≡ (s', r)
        → Step s s'
    creates_channel :
        {s s' : AppState} {r : StateResult (Unit {0})} (c : Text)
        → channel_name_is_valid c ≡ true
        → create_channel s c ≡ (s', r)
        → Step s s'
    joins :
        {s s' : AppState} {r : StateResult (Unit {0})} (u c : Text) (f : UserExistsFn)
        → Run s (f u s).1
        → join_channel s u c f ≡ some (s', r)
        → Step s s'
    leaves :
        {s s' : AppState} {r : StateResult (Unit {0})} (u c : Text) (f : UserExistsFn)
        → Run s (f u s).1
        → leave_channel s u c f ≡ some (s', r)
        → Step s s'
    sends :
        {s s' : AppState} {r : StateResult Text} (u c text : Text) (f : UserExistsFn)
        → Run s (f u s).1
        → HasRoom c (f u s).1
        → send_message s c u text f ≡ some (s', r)
        → Step s s'
    replicates :
        {s s' : AppState} {r : StateResult Text} (c u text : Text) (n : ℕ)
        → channel_name_is_valid c ≡ true
        → n < usize_mod
        → next_id s c + 1 < usize_mod
        → replicate_send_message s c u text (format_id c n) ≡ some (s', r)
        → Step s s'

  pub data Run : AppState → AppState → Type 0 where
    here : {s : AppState} → Run s s
    next : {s t u : AppState} → Run s t → Step t u → Run s u

mutual
  Step-Evolves : {s s' : AppState} → Step s s' → Evolves s s'
  Step-Evolves (creates_user {s = s} u e) =
      subst (Evolves s) (ap (λ o. o.0) e) (create_user-Evolves s u)
  Step-Evolves (creates_channel {s = s} c good e) =
      subst (Evolves s) (ap (λ o. o.0) e) (create_channel-Evolves s c good)
  Step-Evolves (joins {s = s} u c f run e) = join_channel-Evolves s u c f _ (Run-Evolves run) e
  Step-Evolves (leaves {s = s} u c f run e) = leave_channel-Evolves s u c f _ (Run-Evolves run) e
  Step-Evolves (sends {s = s} u c text f run room e) =
      send_message-Evolves s c u text f _ (Run-Evolves run) room e
  Step-Evolves (replicates {s = s} {s' = s'} {r = r} c u text n good below room e) =
      replicate_send_message-Evolves c u text n good below s s' r room e

  Run-Evolves : {s s' : AppState} → Run s s' → Evolves s s'
  Run-Evolves (here {s = s}) = Evolves-refl s
  Run-Evolves (next run step) = Evolves-trans (Run-Evolves run) (Step-Evolves step)

-- However the calls of a server's tasks interleave from the start, the state stays well-formed: no
-- user and no member is listed twice, no user has an empty name, channel names begin with #, and
-- the messages of each channel have that channel's ids in strictly ascending order, as many as its
-- counter says. And no user and no channel ever goes away. (Channels are created and messages
-- replicated under names that begin with #, replicated ids are the channel's, a send finds every
-- message below the counter, and no counter is about to wrap around.)
pub Run-IsValid : {s t : AppState} → Run new_app_state s → Run s t → IsValid t × Evolves s t
Run-IsValid start run =
    ((Run-Evolves run).valid ((Run-Evolves start).valid new_app_state-IsValid), Run-Evolves run)
