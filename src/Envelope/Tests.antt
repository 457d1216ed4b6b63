-- ===== src/Envelope/Tests.antt =====
-- translator.py: an answer with one segment, and a group whose first envelope is accepted.
use cwa_e_book_translate_plu.Prelude.{
  inl, ◌≡◌, refl, arith, Text, codes, text_eq, is_blank, strip, lstrip, is_space, utf8_size,
  utf8_width, as_positive_int, pos, false, Option, [], ◌∷◌, some, none,
}
use cwa_e_book_translate_plu.Budget.{
  ensure_active, remaining_seconds, reserve_attempt, reserve_sized,
}
use cwa_e_book_translate_plu.Batch.{text_at, output_cap, estimate_tokens, count_cjk, is_cjk}
use cwa_e_book_translate_plu.Provider.{
  Provider, openai, local, answered, resolved, try_once, acquire_slot, occupied, transfer, resolve,
  budget_signal, transport_signal, record_provider_call,
}
use cwa_e_book_translate_plu.Provider.Call.{
  call_provider, call_loop, complete, complete_loop, eligible_providers,
}
use cwa_e_book_translate_plu.Envelope.{
  Json, object, text, Items, nil, item, pair, end, get, has_only, is_unique, accepts, is_distinct,
  elem, segment_text, parse_segments, parse_body, parse_segment_envelope, stripped,
  build_context_block,
}
use cwa_e_book_translate_plu.Envelope.Accepted.{
  envelope_of, IsAccepted, HasSize, parse_segment_envelope-IsAccepted,
  parse_segment_envelope_complete,
}
use cwa_e_book_translate_plu.Envelope.Group.{
  Service, Progress, Env, kept, direct, ask, translate_text_operation, fresh_ids, try_envelope,
  envelopes, translate_alone, translate_group_operation,
}
use cwa_e_book_translate_plu.Envelope.Origin.{Origin, IsDelivered}
use cwa_e_book_translate_plu.Envelope.Delivered.{translate_group_operation-IsDelivered}

abbrev one : Items
one =
    item
      (object
        (pair (codes "id") (text (codes "a")) (pair (codes "text") (text (codes " hola ")) end)))
      nil

abbrev loads : Text → Option Json
loads t = some (envelope_of one)

program : Unit {0}
unfolding text_eq is_blank strip lstrip is_space utf8_size utf8_width as_positive_int ensure_active
    remaining_seconds reserve_attempt reserve_sized text_at output_cap estimate_tokens count_cjk
    is_cjk try_once acquire_slot occupied transfer resolve budget_signal transport_signal
    record_provider_call call_provider call_loop complete complete_loop eligible_providers get
    has_only is_unique accepts is_distinct elem segment_text parse_segments parse_body
    parse_segment_envelope stripped build_context_block ask translate_text_operation fresh_ids
    try_envelope envelopes translate_alone translate_group_operation HasSize
program = tt

hola : parse_segment_envelope 100 loads (codes "{}") (codes "a" ∷ []) ≡ some (codes "hola" ∷ [])
unfolding program
hola = refl

parse_segment_envelope-IsAccepted_example : IsAccepted 100 (codes "a" ∷ []) (codes "hola" ∷ [])
parse_segment_envelope-IsAccepted_example =
    parse_segment_envelope-IsAccepted 100 loads (codes "{}") (codes "a" ∷ []) (codes "hola" ∷ [])
      hola

parse_segment_envelope_complete_example :
    parse_segment_envelope 100 loads (codes "{}") (codes "a" ∷ []) ≡ some (codes "hola" ∷ [])
unfolding program
parse_segment_envelope_complete_example =
    parse_segment_envelope_complete 100 loads (codes "{}") (codes "a" ∷ []) (codes "hola" ∷ []) one
      2 4 refl (ground arith) refl refl ((codes " hola ", refl, refl, inl refl), tt)
      (4, 0, refl, refl, refl) (ground arith)

abbrev near : Provider
near = record {
  provider_id = "ollama";
  protocol = openai;
  locality = local;
  cache_namespace = "near";
  model = "m";
}

abbrev service : Service
service = record {
  config = record {
    batch_size = pos 5;
    source_token_budget = 0;
    output_token_factor = 2000;
    output_token_floor = 16;
    context_window = 1;
  };
  max_tokens = 50;
  batch_max_tokens = 50;
  max_response_bytes = 100;
  timeout = 60;
  primary = near;
  fallback = none;
  allow_cloud_fallback = false;
  system_prompt = [];
  batch_system_prompt = [];
  dumps = λ segments context. codes "{}";
  loads = loads;
}

abbrev start : Progress
start = record {
  world = record {
    budget = record {
      max_attempts = 10;
      max_input_bytes = 100;
      max_output_tokens = 100;
      deadline = 5000;
      attempts = 0;
      input_bytes = 0;
      output_tokens = 0;
      cancel_reason = none;
    };
    held = 0;
    inflight_cap = 1;
    metrics = record { attempts = 0; successes = 0; rate_limited = 0; failures = 0 };
  };
  metrics = [];
}

abbrev env : Env
env i j k = record {
  acquire_at = 1;
  remaining_at = 2;
  others = 0;
  waited_at = 3;
  reserve_at = 4;
  resolution = resolved;
  timeout_at = 5;
  transport = answered (codes "{}");
  pause_at = 6;
  pause_remaining_at = 7;
  wake_at = 8;
}

translate_group_operation-IsDelivered_example :
    IsDelivered
      (Origin service
        (build_context_block 1 (codes "hello" ∷ codes "world" ∷ []) (0 ∷ []))
        (codes "hello" ∷ [])
        (λ i. 1)
        env
        start)
      1
      (kept "near" direct (codes "hola") ∷ [])
unfolding program
translate_group_operation-IsDelivered_example =
    translate_group_operation-IsDelivered service (codes "hello" ∷ codes "world" ∷ []) (0 ∷ [])
      (codes "a" ∷ []) (λ i. 1) env start (kept "near" direct (codes "hola") ∷ []) refl
