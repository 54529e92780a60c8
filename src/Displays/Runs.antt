-- ===== src/Displays/Runs.antt =====
-- A session in which documents without decimal numbers read and print, and a sequence of events in
-- it.
use fedora_config.Base.{
  ℕ, ◌+◌, ◌*◌, ◌≡◌, refl, Bool, true, false, ◌&&◌, Bool-cases, inl, inr, Option, none, some,
  if◌then◌else◌, pos,
}
use fedora_config.Json.{
  Value, null, bool, int, float, infinite, constant, str, arr, obj, Items, nil, cons, Fields, field,
  end,
}
use fedora_config.Displays.Host.{
  Codec, IsCodec, Host, HasLowest, LowestItems, LowestFields, finished, replaced,
}
use fedora_config.Displays.Store.{World, absent, read_store}
use fedora_config.Displays.Requests.{expire}
use fedora_config.Displays.Serve.{main}
use fedora_config.Displays.Saved.{IsReadable, start, and_next, request, timer, Events-IsReadable}

mutual
  no_floats : Value → Bool
  no_floats (float x) = false
  no_floats (arr xs) = no_float_items xs
  no_floats (obj fs) = no_float_fields fs
  no_floats _ = true

  no_float_items : Items → Bool
  no_float_items nil = true
  no_float_items (cons x xs) = no_floats x && no_float_items xs

  no_float_fields : Fields → Bool
  no_float_fields end = true
  no_float_fields (field k v fs) = no_floats v && no_float_fields fs

both : (a b : Bool) → (a && b) ≡ true → (a ≡ true) × (b ≡ true)
both true true h = (refl, refl)
both true false h = absurd (cc)
both false b h = absurd (cc)

mutual
  unfolding no_floats no_float_items no_float_fields

  no_floats-HasLowest : (v : Value) → no_floats v ≡ true → HasLowest v
  no_floats-HasLowest null h = tt
  no_floats-HasLowest (bool b) h = tt
  no_floats-HasLowest (int n) h = tt
  no_floats-HasLowest (float x) h = absurd (cc)
  no_floats-HasLowest (infinite b) h = tt
  no_floats-HasLowest (constant s) h = tt
  no_floats-HasLowest (str s) h = tt
  no_floats-HasLowest (arr xs) h = items-LowestItems xs h
  no_floats-HasLowest (obj fs) h = fields-LowestFields fs h

  items-LowestItems : (xs : Items) → no_float_items xs ≡ true → LowestItems xs
  items-LowestItems nil h = tt
  items-LowestItems (cons x xs) h =
      let (a, b) = both (no_floats x) (no_float_items xs) h in
      (no_floats-HasLowest x a, items-LowestItems xs b)

  fields-LowestFields : (fs : Fields) → no_float_fields fs ≡ true → LowestFields fs
  fields-LowestFields end h = tt
  fields-LowestFields (field k v fs) h =
      let (a, b) = both (no_floats v) (no_float_fields fs) h in
      (no_floats-HasLowest v a, fields-LowestFields fs b)

whole_only : Value → Option Value
whole_only v = if no_floats v then some v else none

whole_only-inv : (v w : Value) → whole_only v ≡ some w → (v ≡ w) × (no_floats w ≡ true)
unfolding whole_only
whole_only-inv v w h = elim (Bool-cases (no_floats v)) [
  | inl y ↦ let same : v ≡ w = cc (rw y at h) in (same, rw (← same) y)
  | inr n ↦ absurd (cc (rw n at h))
]

abbrev texts : Codec
texts = record {
  Bytes = Value;
  parse = whole_only;
  parse_text =
      λ s. some (arr (cons (obj (field "id" (int (pos 0)) (field "serial" null end))) nil));
  print = whole_only;
  size = λ v. 1;
  cut = λ n v. v;
  sha256 = λ v. "digest";
  text_of = λ v. "";
}

texts-IsCodec : IsCodec texts
unfolding whole_only
texts-IsCodec = record {
  parse-print =
      λ v b strict lowest h. let (same, whole) = whole_only-inv v b h in rw (whole, same) refl;
  parse-HasLowest = λ b v h. no_floats-HasLowest v (whole_only-inv b v h).1;
  cut_fits = λ n b h. refl;
}

abbrev session : Host texts
session = record {
  Desk = ℕ;
  now = λ d. d * 1024;
  token_hex = λ d. ("0123456789abcdef", d);
  run = λ command d. (finished 0 "ok" "", d + 1);
  storage = λ target b d. replaced;
  environ = λ name. none;
  python = "python3";
  script = "display-settings.py";
  config_path = "/home/user/.config/cybexos/displays.json";
  trial_path = "/run/user/1000/cybexos/displays-trial.json";
}

abbrev at_rest : World texts session
at_rest = record {
  config = absent;
  trial = absent;
  state = absent;
  status = absent;
  runtime = true;
  desk = 100;
}

-- A request to try a document, its confirmation, and the timer of the trial after that.
abbrev apply_line : Value
apply_line = obj (
    field "action" (str "apply") (
      field "document"
        (obj (field "v" (int (pos 1)) (field "monitors" (obj (field "DP-1" (obj end) end)) end)))
        end))

abbrev confirm_line : Value
confirm_line =
    obj (field "action" (str "confirm") (field "checkpoint" (str "0123456789abcdef") end))

abbrev shown : World texts session
shown = (main texts session apply_line at_rest).1

abbrev saved : World texts session
saved = (main texts session confirm_line shown).1

no_file-IsReadable : IsReadable texts texts-IsCodec absent
unfolding read_store
no_file-IsReadable = (_, refl, refl)

Events-IsReadable_example :
    IsReadable texts texts-IsCodec (expire texts session "0123456789abcdef" saved).1.config
Events-IsReadable_example = Events-IsReadable texts texts-IsCodec session no_file-IsReadable (
    and_next (and_next (and_next start (request apply_line at_rest)) (request confirm_line shown))
      (timer "0123456789abcdef" saved))
