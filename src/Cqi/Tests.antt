-- ===== src/Cqi/Tests.antt =====
-- CQi/server.c at concrete inputs.
use cwb.Base.{
  ℕ, ◌≡◌, refl, ◌+◌, ◌%◌, true, Option, none, some, List, [], ◌∷◌, ◌++◌, replicate, set, arith,
}
use cwb.LexHash.Hashing.{hash_string, str_eq}
use cwb.Cqi.Send.{Sink, data_string_list, cqi_send_string_list}
use cwb.Cqi.Receive.{cqi_read_string_list, cqi_read_command}
use cwb.Cqi.RoundTrip.{Reads, Transmits, string_list_round_trip, cqi_read_command-padding}
use cwb.Cqi.Encoding.{after, each_bytes}
use cwb.Cqi.Typed.{cqi_data, read_message}
use cwb.Cqi.Messages.{value_bytes, message_bytes, cqi_data-Reads}
use cwb.Cqi.Names.{
  status_ok, contains, spans, check_name, check_corpus_name, check_optional, split_at,
  split_attribute_spec, split_subcorpus_spec, combine_subcorpus_spec,
}
use cwb.Cqi.Specs.{combine_subcorpus_spec-split}
use cwb.Cqi.AttHash.{
  AttHashTable, empty_bucket, new_bucket, bucket, visit, probe, att_hash_lookup, open_attribute,
  cqi_lookup_attribute, cqi_drop_attribute,
}
use cwb.Cqi.AttHashLaws.{IsValid, Finds, att_hash_lookup-Finds}
use cwb.Cqi.AttHashRoom.{slot_after, att_hash_lookup_room}
use cwb.Cqi.AttLookup.{cqi_lookup_attribute-again}

abbrev two_strings : List (Option (List ℕ))
two_strings = some (66 ∷ 78 ∷ 67 ∷ []) ∷ none ∷ []

string_list_round_trip_example :
    Transmits
      (cqi_send_string_list two_strings)
      cqi_read_string_list
      ((66 ∷ 78 ∷ 67 ∷ []) ∷ [] ∷ [], 2)
string_list_round_trip_example =
    string_list_round_trip two_strings (omega arith)
      (((omega arith, (omega arith, (omega arith, tt))), omega arith), (tt, tt))

abbrev connection : Sink
connection = record { sent = []; room = 64; flushes = true }

cqi_data-Reads_example :
    (cqi_data data_string_list two_strings connection
      ≡ some (after connection (message_bytes data_string_list two_strings)))
    × Reads read_message
        (message_bytes data_string_list two_strings)
        (data_string_list, ((66 ∷ 78 ∷ 67 ∷ []) ∷ [] ∷ [], 2))
unfolding value_bytes each_bytes
cqi_data-Reads_example =
    cqi_data-Reads data_string_list two_strings connection
      (omega arith, (((omega arith, (omega arith, (omega arith, tt))), omega arith), (tt, tt)))
      (omega arith) refl

cqi_read_command-padding_example : Reads cqi_read_command (0 ∷ 0 ∷ 0 ∷ 17 ∷ 1 ∷ []) 0x1101
cqi_read_command-padding_example = cqi_read_command-padding 3 0x1101 (omega arith) (omega arith)

-- "DICKENS"
abbrev corpus_name : List ℕ
corpus_name = 68 ∷ 73 ∷ 67 ∷ 75 ∷ 69 ∷ 78 ∷ 83 ∷ []

-- "Last"
abbrev last_name : List ℕ
last_name = 76 ∷ 97 ∷ 115 ∷ 116 ∷ []

corpus_name_ok : check_corpus_name corpus_name ≡ some status_ok
unfolding check_name contains spans
corpus_name_ok = refl

last_name_ok : check_optional (some last_name) ≡ some status_ok
unfolding check_name contains spans
last_name_ok = refl

spec_splits :
    split_subcorpus_spec (corpus_name ++ 58 ∷ last_name)
    ≡ some (status_ok, some (corpus_name, some last_name))
unfolding split_subcorpus_spec split_at check_name contains spans
spec_splits = refl

combine_subcorpus_spec-split_example :
    (combine_subcorpus_spec corpus_name (some last_name) ≡ corpus_name ++ 58 ∷ last_name)
    × (check_corpus_name corpus_name ≡ some status_ok)
    × (check_optional (some last_name) ≡ some status_ok)
combine_subcorpus_spec-split_example =
    combine_subcorpus_spec-split (corpus_name ++ 58 ∷ last_name) corpus_name (some last_name)
      spec_splits

-- A table of 11 slots; attributes are numbers.
abbrev no_attributes : AttHashTable ℕ
no_attributes = record { space = replicate 11 empty_bucket; size = 11 }

no_attributes-IsValid : IsValid no_attributes
no_attributes-IsValid = record { some_slots = omega arith; sized = refl }

-- "A.b" and "A.m", both of slot 8
abbrev attribute_name : ℕ → List ℕ
attribute_name c = 65 ∷ 46 ∷ c ∷ []

slots_test :
    (hash_string (attribute_name 98) % 11 ≡ 8) × (hash_string (attribute_name 109) % 11 ≡ 8)
unfolding hash_string
slots_test = (refl, refl)

abbrev with_string : ℕ → List ℕ → AttHashTable ℕ → AttHashTable ℕ
with_string q str hash = record hash { space = set hash.space q (new_bucket str) }

abbrev one_string : AttHashTable ℕ
one_string = with_string 8 (attribute_name 98) no_attributes

first_found : att_hash_lookup no_attributes (attribute_name 98) ≡ some (one_string, 8)
unfolding att_hash_lookup probe visit hash_string
first_found = refl

att_hash_lookup-Finds_example :
    Finds no_attributes (attribute_name 98) one_string 8
    × (att_hash_lookup one_string (attribute_name 98) ≡ some (one_string, 8))
att_hash_lookup-Finds_example =
    att_hash_lookup-Finds no_attributes one_string (attribute_name 98) 8 no_attributes-IsValid
      first_found

one_string-IsValid : IsValid one_string
one_string-IsValid = record { some_slots = omega arith; sized = refl }

slot_free :
    (bucket one_string (slot_after 11 (hash_string (attribute_name 98) % 11) 1)).string ≡ none
unfolding hash_string
slot_free = refl

att_hash_lookup_room_example :
    (h : AttHashTable ℕ) × (q : ℕ) × (att_hash_lookup one_string (attribute_name 98) ≡ some (h, q))
att_hash_lookup_room_example =
    att_hash_lookup_room one_string (attribute_name 98) 1 one_string-IsValid (omega arith) slot_free

abbrev open_corpus : List ℕ → Option (List ℕ)
open_corpus name = some name

abbrev new_attribute : List ℕ → List ℕ → ℕ → Option ℕ
new_attribute corpus name kind = some (kind + 100)

abbrev one_attribute : AttHashTable ℕ
one_attribute = record no_attributes {
  space =
      set no_attributes.space 8
        (record { string = some (attribute_name 98); attribute = some 101; kind = 1 });
}

opens :
    cqi_lookup_attribute open_corpus new_attribute no_attributes (attribute_name 98) 1
    ≡ some (one_attribute, status_ok, some 101)
unfolding cqi_lookup_attribute open_attribute split_attribute_spec split_at check_name contains
    spans att_hash_lookup probe visit hash_string
opens = refl

abbrev no_corpus : List ℕ → Option (List ℕ)
no_corpus name = none

cqi_lookup_attribute-again_example :
    cqi_lookup_attribute no_corpus new_attribute one_attribute (attribute_name 98) 1
    ≡ some (one_attribute, status_ok, some 101)
cqi_lookup_attribute-again_example =
    cqi_lookup_attribute-again open_corpus no_corpus new_attribute new_attribute no_attributes
      one_attribute (attribute_name 98) 1 status_ok 101 no_attributes-IsValid opens

drop_test : cqi_drop_attribute (λ a. true) one_attribute (attribute_name 98) ≡ some (one_string, 1)
unfolding cqi_drop_attribute att_hash_lookup probe visit hash_string str_eq
drop_test = refl
