-- ===== src/Tests/Plane.antt =====
-- The web plane's and the proxy's theorems on concrete bytes, keys and addresses.
use bagel.Prelude.{
  ℕ, ◌%◌, ◌≤◌, String, ◌≡◌, refl, inl, inr, Bool, true, not, Option, none, some, List, [], ◌∷◌,
  ◌++◌, arith, str_eq, ◌==◌, if◌then◌else◌, Bool-cases, ==→≡, ≡→==, length, keep,
}
use bagel.Http2.Wire.{ok, invalid, Ensures, ◌>>=◌, u24, byte, u32, split_at?, finish}
use bagel.Http2.Frame.{settings_ack, decode, read_body, read_payload}
use bagel.Http2.Frame.Streaming.{decode-append, decode_consumes}
use bagel.Http2.Hpack.Integer.{integer, encode, integer-encode}
use bagel.Http2.Hpack.Table.{TableEntry, DynamicTable, empty_table, insert}
use bagel.Http2.Hpack.Table.Room.{IsWithin, empty_table-IsWithin, insert-IsWithin}
use bagel.Http2.Hpack.Order.{PseudoHeader, parse}
use bagel.Http2.Hpack.Order.Ends.{IsDistinct, parse_ends}
use bagel.Http2.Observer.{
  FingerprintStream, new_stream, poll_read, preface, unavailable, failed, publish, feed, examine,
  filled, first_bytes, starts_with, scan_frames, after_loop, feed_loop, next_frame, handle,
}
use bagel.Http2.Observer.Chunks.{IsWithin as IsStreamWithin, joined, poll_all, poll_all-joined}
use bagel.Rate.Entry.{Entry, increment, advance, snapshot, read}
use bagel.Rate.Entry.Counts.{IsCounting, bump, counts, increment-advance, read-counts}
use bagel.Rate.Shard.{RateKey, RateTracker, Shard, record_in, record_at, peek_at, find}
use bagel.Rate.Shard.Capacity.{record_in-length}
use bagel.Rate.Shard.Keys.{IsKnown, record_at-counts}
use bagel.Pending.{
  PendingTable, get as lookup_challenge, expire, expire_from, redeem_entry, redeem, store_challenge,
  capacity,
}
use bagel.Pending.Table.{redeem_once, store_challenge-length}
use bagel.RealIp.{client_ip, contains, reverse, split_commas}
use bagel.RealIp.Hops.{hops, head_or, client_ip-hops}
use bagel.Poison.{set as set_poison, contains as contains_poison}
use bagel.Poison.Memory.{contains-set}
use bagel.Decay.{DecayMap, set, get, set_with_ttl, max_entries, store, lookup, put as put_entry}
use bagel.Decay.Laws.{get-set, set-length}

-- A SETTINGS acknowledgement.
abbrev ack : List ℕ
ack = 0 ∷ 0 ∷ 0 ∷ 4 ∷ 1 ∷ 0 ∷ 0 ∷ 0 ∷ 0 ∷ []

ack-decodes : decode ack ≡ ok (some (settings_ack, 9))
unfolding decode ◌>>=◌ u24 byte u32 read_body split_at? read_payload finish
ack-decodes = refl

decode-append_example : decode (ack ++ (1 ∷ [])) ≡ decode ack
decode-append_example = decode-append ack (1 ∷ []) (λ h. cc (h, ack-decodes))

decode_consumes_example : (9 ≤ 9) × (9 ≤ 9) × (9 ≤ 16393)
decode_consumes_example = decode_consumes ack settings_ack 9 ack-decodes

integer-encode_example : integer 31 (encode 31 1 1337 ++ (7 ∷ [])) ≡ ok (1337, 7 ∷ [])
integer-encode_example = integer-encode 31 1 1337 (7 ∷ []) (omega arith)

abbrev table_entry : TableEntry
table_entry = record { name = 120 ∷ []; size = 34 }

insert-IsWithin_example :
    (t : DynamicTable) × (insert table_entry empty_table ≡ some t) × IsWithin t
insert-IsWithin_example = insert-IsWithin table_entry empty_table empty_table-IsWithin

abbrev no_huffman : List ℕ → Option (List ℕ)
no_huffman raw = none

-- `:method GET`, `:path /` from the static table.
abbrev block : List ℕ
block = 130 ∷ 132 ∷ []

parse_ends_example :
    Ensures
      (λ o. (order : List PseudoHeader) × (o ≡ some order) × IsDistinct order)
      (parse no_huffman block)
parse_ends_example = parse_ends no_huffman block

-- Every number written with one digit.
abbrev one_digit : ℕ → ℕ
one_digit n = 1

-- An empty SETTINGS frame, a HEADERS frame without its end and a CONTINUATION frame.
abbrev first_frames : List ℕ
first_frames = 0 ∷ 0 ∷ 0 ∷ 4 ∷ 0 ∷ 0 ∷ 0 ∷ 0 ∷ 0 ∷ 0 ∷ 0 ∷ 1 ∷ 1 ∷ 0 ∷ 0 ∷ 0 ∷ 0 ∷ 1 ∷ 130 ∷ []

abbrev last_frame : List ℕ
last_frame = 0 ∷ 0 ∷ 1 ∷ 9 ∷ 4 ∷ 0 ∷ 0 ∷ 0 ∷ 1 ∷ 132 ∷ []

abbrev reads : List (List ℕ)
reads = preface ∷ first_frames ∷ last_frame ∷ []

poll_all-joined_example :
    (t : FingerprintStream) × (poll_all one_digit no_huffman new_stream reads ≡ some t)
    × (poll_read one_digit no_huffman new_stream (joined reads) ≡ some t)
    × IsStreamWithin t
poll_all-joined_example = poll_all-joined one_digit no_huffman reads

-- A connection that does not speak HTTP/2.
other-unavailable :
    poll_read one_digit no_huffman new_stream (71 ∷ 69 ∷ 84 ∷ [])
    ≡ some (record { observer = none; fingerprint = unavailable })
unfolding poll_read publish feed examine filled first_bytes starts_with
other-unavailable = refl

-- A first frame that is no SETTINGS.
ack-invalid :
    poll_read one_digit no_huffman new_stream (preface ++ ack)
    ≡ some (record { observer = none; fingerprint = failed invalid })
unfolding poll_read publish feed examine filled first_bytes starts_with scan_frames after_loop
    feed_loop next_frame handle decode ◌>>=◌ u24 byte u32 read_body split_at? read_payload finish
ack-invalid = refl

-- Two events at tick 5.
abbrev entry : Entry
entry = record { buckets = λ i. if i == 5 then 2 else 0; last_tick = 5; last_used = 2 }

abbrev events : ℕ → ℕ
events u = if u == 5 then 2 else 0

entry-IsCounting : IsCounting events entry
entry-IsCounting = record {
  later = λ u h. elim (Bool-cases (u == 5)) [
    | inl e ↦ absurd (omega (arith, ==→≡ u 5 e))
    | inr e ↦ rw e refl
  ];
  held = λ u l m.
      let same : u % 60 ≡ u = omega arith in
      elim (Bool-cases (u == 5)) [ inl e ↦ rw (same, e) refl | inr e ↦ rw (same, e) refl ];
}

increment-advance_example :
    IsCounting (bump 7 events) (increment 7 (advance 7 entry))
    × (snapshot 7 (increment 7 (advance 7 entry)) ≡ counts 7 (bump 7 events))
increment-advance_example = increment-advance 7 entry events (omega arith) entry-IsCounting

read-counts_example : read 9 entry ≡ counts 9 events
read-counts_example = read-counts 9 entry events (omega arith) entry-IsCounting

abbrev client : RateKey ℕ
client = record { host = "example.test"; network = 7 }

abbrev same_number : ℕ → ℕ → Bool
same_number m n = m == n

abbrev hash : RateKey ℕ → ℕ
hash k = k.network

abbrev shard : Shard ℕ
shard = record { entries = (client, entry) ∷ []; used = 2 }

abbrev tracker : RateTracker ℕ
tracker = record { shards = λ i. shard; shard_capacity = 16; capacity = 1024 }

shard-knows : IsKnown (find same_number client shard.entries) events 7
unfolding find IsKnown
shard-knows = (entry-IsCounting, omega arith)

record_at-counts_example :
    ((record_at same_number hash client 7 tracker).0 ≡ counts 7 (bump 7 events))
    × (peek_at same_number hash client 9 (record_at same_number hash client 7 tracker).1
        ≡ counts 9 (bump 7 events))
record_at-counts_example =
    record_at-counts same_number hash client 7 9 tracker events (λ n. ≡→== n n refl) shard-knows
      (omega arith)

record_in-length_example : length (record_in same_number 16 client 7 shard).1.entries ≤ 16
record_in-length_example =
    record_in-length same_number 16 client 7 shard (omega arith) (omega arith)

abbrev challenges : PendingTable
challenges = record {
  challenges =
      (11, record { binding = 5; pass_key = 99; level = 3; gpu_level = none; expiry = 400 }) ∷ [];
  expiries = (400, 11) ∷ [];
}

challenge-redeemed : (redeem 100 11 5 3 challenges).0 ≡ some 99
unfolding redeem redeem_entry expire expire_from lookup_challenge
challenge-redeemed = refl

redeem_once_example : (redeem 120 11 5 3 (redeem 100 11 5 3 challenges).1).0 ≡ none
redeem_once_example = redeem_once 100 11 5 3 99 120 5 3 challenges challenge-redeemed

store_challenge-length_example :
    length (store_challenge 100 (12 ∷ []) 6 77 3 none 60 challenges).1.challenges ≤ capacity
store_challenge-length_example =
    store_challenge-length 100 (12 ∷ []) 6 77 3 none 60 challenges (omega arith)

-- Addresses are texts and a network is one address.
abbrev parse_entry : String → Option String
parse_entry s = some s

client_ip-hops_example :
    client_ip str_eq parse_entry ("10.0.0.1" ∷ []) "10.0.0.1" (some "9.9.9.9,10.0.0.1") ≡ (
      if contains str_eq ("10.0.0.1" ∷ []) "10.0.0.1"
      then head_or str_eq parse_entry
          (head_or str_eq parse_entry "10.0.0.1"
            (hops str_eq parse_entry (reverse (split_commas "9.9.9.9,10.0.0.1"))))
          (keep
            (λ ip. not (contains str_eq ("10.0.0.1" ∷ []) ip))
            (hops str_eq parse_entry (reverse (split_commas "9.9.9.9,10.0.0.1"))))
      else "10.0.0.1")
client_ip-hops_example =
    client_ip-hops str_eq parse_entry ("10.0.0.1" ∷ []) "10.0.0.1" "9.9.9.9,10.0.0.1"

abbrev map_of_one : DecayMap ℕ ℕ
map_of_one = record { inner = (1, 10, 50) ∷ []; ttl = 30 }

get-set_example : get same_number 70 2 (set same_number 60 2 20 map_of_one) ≡ some 20
get-set_example = get-set same_number 60 70 2 20 map_of_one refl (omega arith) (omega arith)

abbrev map_of_two : DecayMap ℕ ℕ
map_of_two = record { inner = (1, 10, 50) ∷ (2, 20, 40) ∷ []; ttl = 30 }

shorter_life : set_with_ttl same_number 60 60 2 20 10 map_of_one ≡ some map_of_two
unfolding set_with_ttl store lookup put_entry
shorter_life = refl

set-length_example :
    (length (set same_number 60 2 20 map_of_one).inner ≤ max_entries)
    × (length map_of_two.inner ≤ max_entries)
set-length_example =
    set-length same_number 60 60 2 20 10 map_of_one map_of_two (omega arith) shorter_life

contains-set_example : contains_poison 70 9 (set_poison 60 60 9 "default" 30 []) ≡ true
contains-set_example = contains-set 60 60 70 9 "default" 30 []
