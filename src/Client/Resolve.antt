-- ===== src/Client/Resolve.antt =====
-- `resolve_image` (thunder_sandbox/asynchronous/client.py): the request for an image, the upload of its
-- build context, and the waiting for it. Times are milliseconds.
pub mod Closed
use thunder_sandbox.Prelude.{
  ℕ, zero, suc, ◌+◌, Bool, true, false, Option, none, some, List, [], ◌∷◌, Text, codes, ℤ, pos,
  negsuc, if◌then◌else◌,
}
use thunder_sandbox.Common.Errors.{Error, ErrorKind, thunder_error, plain, Result, ok, err, raise}
use thunder_sandbox.Common.Json.{Json, Fields, get}
use thunder_sandbox.Common.Task.{Ran, done, threw, waiting}
use thunder_sandbox.Create.Options.{Argument, proper, improper}
use thunder_sandbox.Create.Body.{optional_field, text_json, fields_json, queue_json}
use thunder_sandbox.Image.Context.{ContextFile}
use thunder_sandbox.Image.Archive.{
  Bytes, Archive, Disk, BuildContext, Outcome, create_build_context,
}
use thunder_sandbox.Image.Definition.{Image, Source, registry, dockerfile}
use thunder_sandbox.Client.ImageWait.{
  ResolvedImage, Poll, wait_for_image, request_timeout, timed_out,
}
use thunder_sandbox.Client.Upload.{Round, upload_image_context}

-- the caller's part
pub record Wanted : Type 0 where
  pub image : Argument Image
  pub timeout : Option ℤ
  pub queue : Argument Bool
  pub gated_features : Option Fields
  pub spec : Option Fields

-- What the API and the builder answer, and when: the request for the image, the transfers of an upload,
-- and the requests for the state.
pub record Answers : Type 0 where
  pub sent_at : ℕ
  pub reply : Result Fields
  pub upload_at : ℕ
  pub rounds : List Round
  pub wait_at : ℕ
  pub polls : List Poll

abbrev pub invalid {ℓ} : {A : Type ℓ} → Result A
invalid = raise ErrorKind.invalid_request

abbrev pub deadline_of : Option ℤ → ℕ → Result (Option ℕ)
deadline_of none now = ok none
deadline_of (some (pos zero)) now = invalid
deadline_of (some (pos (suc n))) now = ok (some (now + suc n))
deadline_of (some (negsuc n)) now = invalid

abbrev pub null_or_text : Option Text → Json
null_or_text none = Json.null
null_or_text (some t) = Json.str t

-- the members that both requests may have
abbrev pub common_fields : Option Text → Bool → Option Fields → Option Fields → Fields
common_fields display_name queue gated_features spec =
    optional_field (codes "display_name") (text_json display_name) (
      optional_field (codes "gatedFeatures") (fields_json gated_features) (
        optional_field (codes "queue") (queue_json queue)
          (optional_field (codes "spec") (fields_json spec) Fields.done)))

-- the body of the request for an image of a registry
unfoldable pub registry_request : Image → Bool → Option Fields → Option Fields → Fields
registry_request i queue gated_features spec =
    Fields.field (codes "reference") (null_or_text i.registry_url) (
      Fields.field (codes "username") (null_or_text i.registry_username) (
        Fields.field (codes "password") (null_or_text i.registry_password)
          (common_fields i.display_name queue gated_features spec)))

-- the body of the request for an image of a Dockerfile
unfoldable pub dockerfile_request :
    BuildContext → Text → Image → Bool → Option Fields → Option Fields → Fields
dockerfile_request c public_key i queue gated_features spec =
    Fields.field (codes "recipe_hash") (Json.str c.recipe_hash) (
      Fields.field (codes "context_hash") (Json.str c.context_hash) (
        Fields.field (codes "dockerfile_hash") (Json.str c.dockerfile_hash) (
          Fields.field (codes "build_options_hash") (Json.str c.build_options_hash) (
            Fields.field (codes "archive_bytes") (Json.int (pos c.archive_bytes)) (
              Fields.field (codes "ssh_public_key") (Json.str public_key)
                (common_fields i.display_name queue gated_features spec))))))

-- a request for an image, unless the deadline has passed
abbrev pub request_image : Option ℕ → Answers → Result Fields
request_image deadline a = elim (request_timeout deadline a.sent_at) [
  | none ↦ err timed_out
  | some t ↦ a.reply
]

abbrev pub wait_ready : Option ℕ → Answers → Fields → Ran ResolvedImage
wait_ready deadline a fs = (wait_for_image deadline a.polls fs a.wait_at).0

abbrev pub then_wait : Option ℕ → Answers → Fields → Ran (Unit {0}) → Ran ResolvedImage
then_wait deadline a fs (done u) = wait_ready deadline a fs
then_wait deadline a fs (threw e) = threw e
then_wait deadline a fs waiting = waiting

-- how the call ends, the body of the request that it sent, and the archive that is left on the disk
pub record Ended : Type 0 where
  pub result : Ran ResolvedImage
  pub sent : Option Fields
  pub left : Option Archive

abbrev pub ends_with : Result Fields → (Fields → Ran ResolvedImage) → Ran ResolvedImage
ends_with (ok fs) k = k fs
ends_with (err e) k = threw e

-- the body, if the request is sent
abbrev pub sent_body : Option ℕ → Answers → Fields → Option Fields
sent_body deadline a body = elim (request_timeout deadline a.sent_at) [
  | none ↦ none
  | some t ↦ some body
]

-- `finally: context.close()`, where `unlinks` says whether the archive can be removed
abbrev pub close : Bool → Option Archive → Option Fields → Ran ResolvedImage → Ended
close unlinks left sent waiting = record { result = waiting; sent = sent; left = left }
close true left sent r = record { result = r; sent = sent; left = none }
close false left sent r = record { result = threw Error.os_error; sent = sent; left = left }

abbrev pub fails : Error → Ended
fails e = record { result = threw e; sent = none; left = none }

-- the checks of the arguments
abbrev pub checked : Argument Image → Argument Bool → (Image → Bool → Ended) → Ended
checked (proper i) (proper q) k = k i q
checked _ _ k = fails (thunder_error (plain ErrorKind.invalid_request))

module _ (date_of : Text → Option ℕ) (canonical : Text → Option Text) where
  -- the upload that a reply asks for, if it asks for one
  abbrev pub upload_asked : Option ℕ → Answers → Option Json → Ran (Unit {0})
  upload_asked deadline a none = done tt
  upload_asked deadline a (some Json.null) = done tt
  upload_asked deadline a (some (Json.obj fs)) =
      upload_image_context date_of canonical deadline fs a.rounds a.upload_at
  upload_asked deadline a (some _) = threw (thunder_error (plain ErrorKind.connection))

  -- what follows the making of a build context
  abbrev pub build :
      Option ℕ
      → Answers
      → Bool
      → Text
      → Image
      → Bool
      → Option Fields
      → Option Fields
      → Outcome
      → Ended
  build deadline a unlinks public_key i queue gated_features spec o = elim o.result [
    | err e ↦ record { result = threw e; sent = none; left = o.left }
    | ok c ↦
        close unlinks o.left
          (sent_body deadline a (dockerfile_request c public_key i queue gated_features spec))
          (ends_with (request_image deadline a)
            (λ fs. then_wait deadline a fs (upload_asked deadline a (get (codes "upload") fs))))
  ]

  module _ (size : Archive → ℕ) (digest_file : Archive → Text) (digest : Bytes → Text)
      (public_key : Text) where
    abbrev pub by_source :
        Option ℕ
        → Wanted
        → Image
        → Bool
        → Answers
        → Disk
        → Result (List ContextFile)
        → Source
        → Option Text
        → Ended
    by_source deadline w i queue a d files registry directory = record {
      result = ends_with (request_image deadline a) (wait_ready deadline a);
      sent = sent_body deadline a (registry_request i queue w.gated_features w.spec);
      left = none;
    }
    by_source deadline w i queue a d files dockerfile none =
        fails (thunder_error (plain ErrorKind.invalid_request))
    by_source deadline w i queue a d files dockerfile (some directory) =
        build deadline a d.unlinks public_key i queue w.gated_features w.spec
          (create_build_context size digest_file digest d files)

    abbrev pub with_deadline :
        Wanted
        → Image
        → Bool
        → Answers
        → Disk
        → Result (List ContextFile)
        → Result (Option ℕ)
        → Ended
    with_deadline w i queue a d files (err e) = fails e
    with_deadline w i queue a d files (ok deadline) =
        by_source deadline w i queue a d files i.source i.context_directory

    -- `resolve_image` at the time `now`, with the files of the build context, and the public part of the
    -- key made for the upload
    unfoldable pub resolve_image : Wanted → ℕ → Answers → Disk → Result (List ContextFile) → Ended
    resolve_image w now a d files =
        checked w.image w.queue (λ i q. with_deadline w i q a d files (deadline_of w.timeout now))
