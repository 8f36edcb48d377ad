-- ===== src/Examples/Policy.antt =====
-- Updates of a network policy (thunder_sandbox/asynchronous/sandbox.py).
use thunder_sandbox.Prelude.{◌≡◌, refl, some, List, [], ◌∷◌, Text, codes}
use thunder_sandbox.Common.Errors.{Result, ok, err}
use thunder_sandbox.Common.Json.{Json, Fields}
use thunder_sandbox.Common.Task.{done}
use thunder_sandbox.Lifecycle.Box.{ready}
use thunder_sandbox.Policy.Decode.{NetworkPolicy, policy_from_response}
use thunder_sandbox.Policy.Update.{
  View, Poll, Accepted, accepted, conflict, judge, judge_reply, wait_for_policy, patch,
  update_policy,
}
use thunder_sandbox.Policy.Update.Enforced.{Updated, update_policy-Updated}

abbrev closed_policy : NetworkPolicy
closed_policy = record { internet_access = codes "closed"; cidrs = []; domains = [] }

abbrev view_of_generation : View
view_of_generation = record {
  status = ready;
  policy = closed_policy;
  enforced = some 4;
  desired = some 5;
}

abbrev pending_then_accepted : List (Result Accepted)
pending_then_accepted = err conflict ∷ ok (accepted closed_policy (ok (some 5))) ∷ []

abbrev polls : List Poll
polls =
    record { reply = ok (record { id = codes "s"; info = ok view_of_generation }); arrives = 10 }
    ∷ record {
      reply =
          ok (record {
            id = codes "s";
            info = ok (record view_of_generation { enforced = some 5 });
          });
      arrives = 1010;
    }
    ∷ []

update_policy-Updated_example :
    Updated
      (codes "s")
      pending_then_accepted
      polls
      (update_policy (codes "s") pending_then_accepted polls)
update_policy-Updated_example = update_policy-Updated (codes "s") pending_then_accepted polls

enforced_at_last : update_policy (codes "s") pending_then_accepted polls ≡ done tt
unfolding update_policy patch wait_for_policy judge_reply judge
enforced_at_last = refl

abbrev text_of : Json → Text
text_of (Json.str t) = t
text_of j = codes "?"

no_lists :
    policy_from_response text_of
      (some (Json.obj (Fields.field (codes "cidr_allowlist") Json.null Fields.done)))
    ≡ closed_policy
unfolding policy_from_response
no_lists = refl
