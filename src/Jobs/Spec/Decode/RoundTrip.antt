-- ===== src/Jobs/Spec/Decode/RoundTrip.antt =====
-- A job specification survives its encoding.
use thunder_sandbox.Prelude.{◌≡◌, ◌⊎◌, inl, inr, refl, Option, none, some, List, [], ◌∷◌, Text}
use thunder_sandbox.Common.Errors.{Result, ok, err, value_error, ◌>>=◌, Yields, Yields-bind}
use thunder_sandbox.Common.Json.{Json, Fields, str_items, all_str}
use thunder_sandbox.Jobs.Spec.{Env, JobSpec, text_or_null, env_fields, to_value}
use thunder_sandbox.Jobs.Spec.Decode.{
  text_or_none, env_of_fields, env_or_none, decode_spec, as_texts, spec_or_value_error,
  spec_from_json,
}
use mathlib.Core.List.{Permᴰ}
use thunder_sandbox.Common.Sort.{sorted}
use thunder_sandbox.Common.Sort.Order.{Ascending, sorted-All, sorted-Permᴰ, sorted-Ascending}
use thunder_sandbox.Jobs.Spec.Validity.{IsValid, IsEnvItem, make_spec-valid, make_spec-IsValid}

all_str-str_items : (ts : List Text) → all_str (str_items ts) ≡ some ts
all_str-str_items [] = refl
all_str-str_items (t ∷ ts) = rw (all_str-str_items ts)

env_of_fields-env_fields : (e : Env) → env_of_fields (env_fields e) ≡ some e
env_of_fields-env_fields [] = refl
env_of_fields-env_fields ((n, none) ∷ rest) = rw (env_of_fields-env_fields rest)
env_of_fields-env_fields ((n, some v) ∷ rest) = rw (env_of_fields-env_fields rest)

text_back : (o : Option Text) → text_or_none (some (text_or_null o)) ≡ ok o
text_back none = refl
text_back (some t) = refl

texts_back : (ts : List Text) → as_texts (Json.arr (str_items ts)) ≡ ok ts
texts_back ts = rw (all_str-str_items ts, as_texts)

env_back : (e : Env) → env_or_none (some (Json.obj (env_fields e))) ≡ ok (some e)
env_back e = rw (env_of_fields-env_fields e, env_or_none)

abbrev sorted_spec : JobSpec → JobSpec
sorted_spec s = record s { env = sorted s.env }

sorted_spec-IsValid : (s : JobSpec) → IsValid s → IsValid (sorted_spec s)
sorted_spec-IsValid s h = record {
  id = h.id;
  command = h.command;
  arguments = h.arguments;
  workdir = h.workdir;
  user = h.user;
  container = h.container;
  stdout = h.stdout;
  stderr = h.stderr;
  env = sorted-All IsEnvItem s.env h.env;
}

decoded-back : (s : JobSpec) → IsValid s → spec_from_json (some (to_value s)) ≡ ok (sorted_spec s)
unfolding spec_from_json to_value decode_spec ◌>>=◌
decoded-back s h =
    simp
      (texts_back, env_back, text_back, make_spec-valid (sorted_spec s) (sorted_spec-IsValid s h))

-- Decoding what a valid specification encodes gives the specification back, with the same environment,
-- whose items are now in the order of their names.
pub spec_from_json-to_value :
    (s : JobSpec)
    → IsValid s
    → (e : Env) × Permᴰ e s.env
      × Ascending e
      × (spec_from_json (some (to_value s)) ≡ ok (record s { env = e }))
spec_from_json-to_value s h =
    (sorted s.env, sorted-Permᴰ s.env, sorted-Ascending s.env, decoded-back s h)

decode_spec-IsValid : (raw : Fields) → Yields IsValid (decode_spec raw)
unfolding decode_spec
decode_spec-IsValid raw = search (Yields-bind, make_spec-IsValid) depth 16

-- Whatever is decoded, the result is a valid specification or a `ValueError`.
pub spec_from_json_cases :
    (j : Option Json)
    → ((s : JobSpec) × (spec_from_json j ≡ ok s) × IsValid s) ⊎ (spec_from_json j ≡ err value_error)
unfolding spec_from_json
spec_from_json_cases none = inr refl
spec_from_json_cases (some (Json.obj raw)) = go (decode_spec raw) refl
  where
    go :
        (r : Result JobSpec)
        → decode_spec raw ≡ r
        → ((s : JobSpec) × (spec_or_value_error (decode_spec raw) ≡ ok s) × IsValid s)
          ⊎ (spec_or_value_error (decode_spec raw) ≡ err value_error)
    go (ok s) e = inl (s, rw e, (decode_spec-IsValid raw).at s e)
    go (err x) e = inr (rw e)
spec_from_json_cases (some _) = inr refl
