-- ===== src/Examples/Client.antt =====
-- Replies of the API, of thunder_sandbox/asynchronous/client.py.
use thunder_sandbox.Prelude.{
  ℕ, ◌+◌, ◌*◌, ◌≤◌, length, ◌≡◌, ◌≢◌, refl, sym, ◌∙◌, subst, arith, true, false, Option, none, some,
  [], ◌∷◌, codes, Text, pos,
}
use thunder_sandbox.Common.Errors.{ErrorKind, thunder_error, plain, ok, ok-injective, ◌>>=◌}
use thunder_sandbox.Common.Task.{done, threw, waiting}
use thunder_sandbox.Common.Json.{Json, Items, Fields, is_truthy}
use thunder_sandbox.Client.Response.{value, replies, request}
use thunder_sandbox.Client.Response.Classes.{Reports, request-Reports}
use thunder_sandbox.Client.Workspaces.{
  resolve_workspace, list_workspaces, workspaces_of, remember, no_workspaces,
}
use thunder_sandbox.Client.Workspaces.Resolves.{Chosen, Resolution, resolve_workspace-Resolution}
use thunder_sandbox.Client.Upload as Upload
use thunder_sandbox.Client.Upload.{Target, upload_target, broken, limit, upload_image_context}
use thunder_sandbox.Client.Upload.Bounded.{upload_image_context-ends}
use thunder_sandbox.Client.ImageWait.{Poll, wait_for_image, verdict, request_timeout}
use thunder_sandbox.Create.Options.{proper}
use thunder_sandbox.Image.Definition.{Image, registry, dockerfile}
use thunder_sandbox.Image.Archive.{Disk, contents, create_build_context, add_files, describe}
use thunder_sandbox.Client.Resolve.{Wanted, Answers, Ended, resolve_image, registry_request}
use thunder_sandbox.Client.Resolve.Closed.{IsClosed, resolve_image-IsClosed}

abbrev limited : Json
limited =
    Json.obj (Fields.field (codes "error") (Json.str (codes "rate_limit_exceeded")) Fields.done)

request-Reports_example :
    Reports 429 (some 2000) (request (replies 429 (value limited) (some 2000)))
request-Reports_example = request-Reports 429 (value limited) (some 2000) (omega arith) tt

abbrev in_progress : Fields
in_progress =
    Fields.field (codes "id") (Json.str (codes "i"))
      (Fields.field (codes "state") (Json.str (codes "BUILDING")) Fields.done)

abbrev is_ready : Fields
is_ready = Fields.field (codes "id") (Json.str (codes "i")) (
    Fields.field (codes "state") (Json.str (codes "READY")) (
      Fields.field (codes "managed_reference") (Json.str (codes "r"))
        (Fields.field (codes "managed_digest") (Json.str (codes "d")) Fields.done)))

abbrev poll_building : Poll
poll_building = record { reply = ok in_progress; took = 5; oversleep = 0 }

abbrev poll_ready : Poll
poll_ready = record { reply = ok is_ready; took = 5; oversleep = 0 }

image_ready : wait_for_image (some 60000) (poll_building ∷ poll_ready ∷ []) in_progress 0 ≡ (
  done (record { id = codes "i"; managed_reference = codes "r"; managed_digest = codes "d" }),
  2010,
)
unfolding wait_for_image verdict request_timeout
image_ready = refl

-- a `lower` and a `str` that serve for these texts
abbrev same : Text → Text
same t = t

abbrev plain_str : Json → Text
plain_str (Json.str t) = t
plain_str _ = []

abbrev team : Json
team = Json.arr (
    Items.item
      (Json.obj (
        Fields.field (codes "id") (Json.str (codes "ws-1"))
          (Fields.field (codes "name") (Json.str (codes "team")) Fields.done)))
      Items.end)

resolves_by_name :
    (resolve_workspace same plain_str (some (codes " team ")) none 5 (ok team) 9 no_workspaces).0
    ≡ ok (codes "ws-1")
unfolding resolve_workspace list_workspaces workspaces_of remember is_truthy
resolves_by_name = refl

resolve_workspace-Resolution_example :
    (chosen : Text) × Chosen (some (codes "team")) none chosen
    × Resolution same plain_str chosen [] 0 5 (ok team) 9 (
        resolve_workspace same plain_str
          (some (codes "team"))
          none
          5
          (ok team)
          9
          (remember same [] 0))
resolve_workspace-Resolution_example =
    resolve_workspace-Resolution same plain_str (some (codes "team")) none [] 0 5 (ok team) 9

abbrev at_two_seconds : Text → Option ℕ
at_two_seconds t = some 2000

abbrev given_key : Text → Option Text
given_key t = some t

abbrev upload_reply : Fields
upload_reply = Fields.field (codes "host") (Json.str (codes "h")) (
    Fields.field (codes "port") (Json.int (pos 22)) (
      Fields.field (codes "username") (Json.str (codes "image-upload")) (
        Fields.field (codes "path") (Json.str (codes "/build-context.tar")) (
          Fields.field (codes "host_public_key") (Json.str (codes "k"))
            (Fields.field (codes "expires_at") (Json.str (codes "e")) Fields.done)))))

abbrev upload_to : Target
upload_to = record { host = codes "h"; port = 22; host_key = codes "k"; expiry = 2000 }

upload_reply-target : upload_target at_two_seconds given_key upload_reply ≡ ok upload_to
unfolding upload_target ◌>>=◌
upload_reply-target = refl

abbrev broken_round : Upload.Round
broken_round = record { transfer = broken; took = 0; oversleep = 0 }

upload_image_context-ends_example :
    upload_image_context at_two_seconds given_key none upload_reply
      (broken_round ∷ broken_round ∷ broken_round ∷ [])
      0
    ≢ waiting
upload_image_context-ends_example =
    upload_image_context-ends at_two_seconds given_key none upload_reply broken_round
      (broken_round ∷ broken_round ∷ []) 0
      (λ t e.
        subst (λ u. limit u.expiry none ≤ 0 + 1000 * length (broken_round ∷ broken_round ∷ []))
          (ok-injective (sym upload_reply-target ∙ e)) (omega arith))

abbrev ubuntu : Image
ubuntu = record {
  source = registry;
  registry_url = some (codes "docker.io/library/ubuntu");
  registry_username = none;
  registry_password = none;
  context_directory = none;
  display_name = none;
}

abbrev local_image : Image
local_image = record {
  source = dockerfile;
  registry_url = none;
  registry_username = none;
  registry_password = none;
  context_directory = some (codes "/app");
  display_name = none;
}

abbrev wanted : Image → Wanted
wanted i = record {
  image = proper i;
  timeout = some (pos 2000);
  queue = proper false;
  gated_features = none;
  spec = none;
}

-- an upload is asked for and its connections break, and the image is not ready in time
abbrev slow_answers : Answers
slow_answers = record {
  sent_at = 20;
  reply = ok (Fields.field (codes "upload") (Json.obj upload_reply) Fields.done);
  upload_at = 30;
  rounds = broken_round ∷ broken_round ∷ broken_round ∷ [];
  wait_at = 1000;
  polls = poll_building ∷ poll_building ∷ [];
}

abbrev good_disk : Disk
good_disk = record {
  made = true;
  is_dir = true;
  set_up = true;
  creates = true;
  open_path = λ t. contents (codes "x");
  reads = true;
  unlinks = true;
}

abbrev resolved : Image → Ended
resolved i =
    resolve_image at_two_seconds given_key (λ a. 0) (λ a. codes "d") (λ b. codes "h") (codes "k")
      (wanted i) 10 slow_answers good_disk (ok ((codes "Dockerfile", codes "Dockerfile") ∷ []))

upload_fails : (resolved local_image).result ≡ threw (thunder_error (plain ErrorKind.connection))
unfolding resolve_image create_build_context upload_image_context upload_target ◌>>=◌
    request_timeout add_files describe Upload.send
upload_fails = refl

registry_body :
    (resolved ubuntu).sent
    ≡ some (
        Fields.field (codes "reference") (Json.str (codes "docker.io/library/ubuntu")) (
          Fields.field
            (codes "username")
            Json.null
            (Fields.field (codes "password") Json.null Fields.done)))
unfolding resolve_image registry_request request_timeout
registry_body = refl

resolve_image-IsClosed_example : IsClosed (resolved local_image)
resolve_image-IsClosed_example =
    resolve_image-IsClosed at_two_seconds given_key (λ a. 0) (λ a. codes "d") (λ b. codes "h")
      (codes "k") (wanted local_image) 1999 10 slow_answers broken_round
      (broken_round ∷ broken_round ∷ []) good_disk
      (ok ((codes "Dockerfile", codes "Dockerfile") ∷ [])) refl refl (omega arith) (omega arith)
      (omega arith) refl
