-- ===== src/Examples/Handle.antt =====
-- Descriptions, listings and searches, of thunder_sandbox/asynchronous/sandbox.py and
-- thunder_sandbox/asynchronous/client.py.
use thunder_sandbox.Prelude.{
  ◌≡◌, refl, ap, String, true, false, none, some, List, [], ◌∷◌, ◌++◌, map, Text, codes, pos,
}
use thunder_sandbox.Common.Errors.{ok, ◌>>=◌}
use thunder_sandbox.Common.Json.{Json, Items, Fields, is_truthy}
use thunder_sandbox.Common.Task.{done}
use thunder_sandbox.Lifecycle.Box.{status_of}
use thunder_sandbox.Policy.Decode.{policy_from_response, generation_from}
use thunder_sandbox.Handle.Info.{
  Language, SandboxInfo, connection_of, described, info_from_response,
}
use thunder_sandbox.Handle.Listing.{items_of, yield_all, list_pages, list_sandboxes}
use thunder_sandbox.Handle.Listing.Whole.{Decodes, Pages, Whole, list_sandboxes-Whole}
use thunder_sandbox.Handle.Listing.Complete.{listing, list_sandboxes-listing}
use thunder_sandbox.Handle.Find.{from_name}
use thunder_sandbox.Handle.Find.Unique.{Outcome, from_name-Outcome}

abbrev plain_str : Json → Text
plain_str (Json.str t) = t
plain_str _ = []

-- conversions that serve for these texts
abbrev language : Language
language = record {
  str_of = plain_str;
  int_of = λ j. ok (pos 0);
  upper = λ t. t;
  date_of = λ t. ok (pos 7);
  canonical = λ t. some t;
}

abbrev description : String → String → Fields
description i n =
    Fields.field (codes "id") (Json.str (codes i))
      (Fields.field (codes "name") (Json.str (codes n)) Fields.done)

abbrev info : String → String → SandboxInfo
info i n = record {
  id = codes i;
  name = codes n;
  status = status_of (codes "created");
  resources = record {
    cpu = pos 0;
    memory = pos 0;
    storage = pos 0;
    gpu_type = none;
    gpu_count = pos 0;
  };
  network_policy = policy_from_response plain_str none;
  network_policy_generation = none;
  desired_network_policy_generation = none;
  queued = false;
  workspace_id = codes "main";
  created_at = some (pos 0);
  expires_at = none;
  ssh = none;
  failure_code = none;
  failure = none;
  image_id = none;
}

-- two pages with one sandbox each
abbrev first_page : Fields
first_page =
    Fields.field (codes "sandboxes")
      (Json.arr (Items.item (Json.obj (description "1" "a")) Items.end))
      (Fields.field (codes "next_page_token") (Json.str (codes "n")) Fields.done)

abbrev second_page : Fields
second_page =
    Fields.field (codes "sandboxes")
      (Json.arr (Items.item (Json.obj (description "2" "b")) Items.end)) Fields.done

abbrev two_pages : List Fields
two_pages = first_page ∷ second_page ∷ []

abbrev both : List SandboxInfo
both = info "1" "a" ∷ info "2" "b" ∷ []

lists_both :
    list_sandboxes language (ok (codes "main")) (map ok two_pages ++ []) []
    ≡ listing both ([] ∷ codes "n" ∷ []) []
unfolding list_sandboxes list_pages yield_all items_of info_from_response connection_of described
    is_truthy generation_from ◌>>=◌
lists_both = refl

list_sandboxes-Whole_example :
    Whole language []
      (map ok two_pages ++ [])
      []
      (list_sandboxes language (ok (codes "main")) (map ok two_pages ++ []) [])
list_sandboxes-Whole_example =
    list_sandboxes-Whole language (ok (codes "main")) (map ok two_pages ++ []) []
      (ap (λ l. l.ended) lists_both)

abbrev both_descriptions : List Fields
both_descriptions = description "1" "a" ∷ description "2" "b" ∷ []

both-Decodes : Decodes language both_descriptions [] both []
unfolding info_from_response connection_of described is_truthy generation_from ◌>>=◌
both-Decodes =
    Decodes.reads _ _ _ [] _ _ _ refl (Decodes.reads _ _ _ [] _ _ _ refl (Decodes.all_read []))

two_pages-Pages : Pages language [] two_pages both_descriptions ([] ∷ codes "n" ∷ [])
unfolding items_of
two_pages-Pages = Pages.more [] first_page _ _ _ _ refl refl (Pages.last _ second_page _ refl refl)

list_sandboxes-listing_example :
    list_sandboxes language (ok (codes "main")) (map ok two_pages ++ []) []
    ≡ listing both ([] ∷ codes "n" ∷ []) []
list_sandboxes-listing_example =
    list_sandboxes-listing language (codes "main") [] [] [] both two_pages-Pages both-Decodes

finds_b :
    (from_name language (codes "b") true (ok (codes "main")) (map ok two_pages ++ []) []).0
    ≡ record { result = done (record { info = info "2" "b"; owns_client = true }); closed = false }
unfolding from_name list_sandboxes list_pages yield_all items_of info_from_response connection_of
    described is_truthy generation_from ◌>>=◌
finds_b = refl

from_name-Outcome_example :
    Outcome
      (codes "b")
      true
      (list_sandboxes language (ok (codes "main")) (map ok two_pages ++ []) [])
      (from_name language (codes "b") true (ok (codes "main")) (map ok two_pages ++ []) []).0
from_name-Outcome_example =
    from_name-Outcome language (codes "b") true (ok (codes "main")) (map ok two_pages ++ []) []

-- Python's `str` of a null is `None`.
abbrev python_str : Json → Text
python_str Json.null = codes "None"
python_str j = plain_str j

abbrev null_page : Fields
null_page = Fields.field (codes "next_page_token") Json.null Fields.done

abbrev python : Language
python = record language { str_of = python_str }

null_token_is_asked_for :
    (list_sandboxes python (ok (codes "main")) (ok null_page ∷ []) []).asked
    ≡ [] ∷ codes "None" ∷ []
unfolding list_sandboxes list_pages yield_all items_of
null_token_is_asked_for = refl
