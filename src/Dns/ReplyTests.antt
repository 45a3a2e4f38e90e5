-- ===== src/Dns/ReplyTests.antt =====
-- Replies of the server of names, and the properties at concrete inputs.
use poplar.Prelude.{ℕ, ◌+◌, ◌≡◌, refl, false, List, [], ◌∷◌, ◌++◌, none, some, arith, length}
use poplar.Prelude.Lists.{slice}
use poplar.Run.{ok, fault, out_of_bounds, assert_failed, ◌>>=◌}
use poplar.Stream.Buffer.{Stream, get_byte}
use poplar.Hash.{hash_create}
use poplar.LinkedList.{State}
use poplar.DnsCache.{DnsQueryResult}
use poplar.Dns.Packets.{
  DomainNameHeader, DomainNameQuestion, DomainNameAnswer, domain_name_question_parse,
  domain_name_answer_parse, header_parse,
}
use poplar.Dns.Reply.{domain_name_ipv4_addr, duplicate}
use poplar.Dns.Answers.{Skips, here, skip, IsReply, first_address, no_address}
use poplar.Dns.Wait.{
  dns_wait_ack_queue_create, dns_wait_ack_queue_add, dns_wait_ack_queue_lookup_by_id,
}

-- A header with flags and a number of answers, and the question for "a".
abbrev start_of : ℕ → ℕ → List ℕ
start_of flags answers =
    0 ∷ 9 ∷ 129 ∷ flags ∷ 0 ∷ 1 ∷ 0 ∷ answers ∷ 0 ∷ 0 ∷ 0 ∷ 0 ∷ 1 ∷ 97 ∷ 0 ∷ 0 ∷ 1 ∷ 0 ∷ 1 ∷ []

-- Another name for the name at 12, and an address for it.
abbrev alias : List ℕ
alias = 192 ∷ 12 ∷ 0 ∷ 5 ∷ 0 ∷ 1 ∷ 0 ∷ 0 ∷ 0 ∷ 60 ∷ 0 ∷ 1 ∷ 0 ∷ []

abbrev address : List ℕ
address = 192 ∷ 12 ∷ 0 ∷ 1 ∷ 0 ∷ 1 ∷ 0 ∷ 0 ∷ 0 ∷ 60 ∷ 0 ∷ 4 ∷ 1 ∷ 2 ∷ 3 ∷ 4 ∷ []

abbrev stream_of : ℕ → List ℕ → Stream
stream_of getp bytes = record {
  getp = getp;
  endp = length bytes;
  size = length bytes;
  bytes = bytes;
}

abbrev found_bytes : List ℕ
found_bytes = start_of 128 2 ++ (alias ++ address)

abbrev none_bytes : List ℕ
none_bytes = start_of 128 1 ++ alias

abbrev header_with : ℕ → DomainNameHeader
header_with answers = record {
  transaction_id = 9;
  flags = 33152;
  questions = 1;
  answer_rrs = answers;
  authority_rrs = 0;
  additional_rrs = 0;
}

abbrev question : DomainNameQuestion
question = record { query_name = 97 ∷ 0 ∷ []; query_type = 1; query_class = 1 }

abbrev alias_answer : DomainNameAnswer
alias_answer = record {
  query_name = none;
  type_of = 5;
  class_of = 1;
  time_live = 60;
  datalen = 1;
  addr = 0;
}

abbrev address_answer : DomainNameAnswer
address_answer = record {
  query_name = none;
  type_of = 1;
  class_of = 1;
  time_live = 60;
  datalen = 4;
  addr = 16909060;
}

found-IsReply :
    IsReply 5
      (stream_of 0 found_bytes)
      (header_with 2)
      question
      (97 ∷ [])
      (stream_of 19 found_bytes)
unfolding header_parse domain_name_question_parse duplicate get_byte slice
found-IsReply = record {
  long = refl;
  behind = stream_of 12 found_bytes;
  headed = refl;
  response = refl;
  one = refl;
  asked = refl;
  of_type = refl;
  of_class = refl;
  text = refl;
  answered = refl;
}

none-IsReply :
    IsReply 5 (stream_of 0 none_bytes) (header_with 1) question (97 ∷ []) (stream_of 19 none_bytes)
unfolding header_parse domain_name_question_parse duplicate get_byte slice
none-IsReply = record {
  long = refl;
  behind = stream_of 12 none_bytes;
  headed = refl;
  response = refl;
  one = refl;
  asked = refl;
  of_type = refl;
  of_class = refl;
  text = refl;
  answered = refl;
}

found-Skips : Skips 5 1 (stream_of 19 found_bytes) (stream_of 32 found_bytes)
unfolding domain_name_answer_parse get_byte
found-Skips =
    skip 0 (stream_of 19 found_bytes) (stream_of 32 found_bytes) (stream_of 32 found_bytes)
      alias_answer refl refl (here (stream_of 32 found_bytes))

none-Skips : Skips 5 1 (stream_of 19 none_bytes) (stream_of 32 none_bytes)
unfolding domain_name_answer_parse get_byte
none-Skips =
    skip 0 (stream_of 19 none_bytes) (stream_of 32 none_bytes) (stream_of 32 none_bytes)
      alias_answer refl refl (here (stream_of 32 none_bytes))

first_address_example :
    domain_name_ipv4_addr 5 100 (stream_of 0 found_bytes)
    ≡ some (
        ok (
          some (record {
            transaction_id = 9;
            host_name = some (97 ∷ []);
            address = 16909060;
            time_live = 60;
            validity_end_time = 160;
          })))
unfolding domain_name_answer_parse get_byte
first_address_example =
    first_address 5 100 1 (stream_of 0 found_bytes) (stream_of 19 found_bytes)
      (stream_of 32 found_bytes) (stream_of 48 found_bytes) (header_with 2) question (97 ∷ [])
      address_answer found-IsReply found-Skips (omega arith) refl refl

no_address_example :
    domain_name_ipv4_addr 5 100 (stream_of 0 none_bytes) ≡ some (fault out_of_bounds)
no_address_example =
    no_address 5 100 (stream_of 0 none_bytes) (stream_of 19 none_bytes) (stream_of 32 none_bytes)
      (header_with 1) question (97 ∷ []) none-IsReply none-Skips

-- A response without the seventh bit of its flags is refused, and a request with it is not.
no_seventh_bit : domain_name_ipv4_addr 5 100 (stream_of 0 (start_of 0 0)) ≡ some (ok none)
unfolding domain_name_ipv4_addr get_byte
no_seventh_bit = refl

-- A header without a question.
cut_short :
    domain_name_ipv4_addr 5 100
      (stream_of 0 (0 ∷ 9 ∷ 129 ∷ 128 ∷ 0 ∷ 1 ∷ 0 ∷ 0 ∷ 0 ∷ 0 ∷ 0 ∷ 0 ∷ []))
    ≡ some (fault assert_failed)
unfolding domain_name_ipv4_addr get_byte
cut_short = refl

-- The offset leads out of the stream.
far_offset :
    domain_name_answer_parse 5 (stream_of 0 (255 ∷ 255 ∷ 0 ∷ 1 ∷ [])) ≡ some (fault out_of_bounds)
unfolding domain_name_answer_parse get_byte
far_offset = refl

-- Peer 7 waits for the reply to query 300.
waited :
    (dns_wait_ack_queue_add (dns_wait_ack_queue_create (λ p. p + 293)) 7 >>= λ q.
    dns_wait_ack_queue_lookup_by_id q 300)
    ≡ ok (some 7)
unfolding dns_wait_ack_queue_add dns_wait_ack_queue_lookup_by_id hash_create
waited = refl

abbrev results : ℕ → DnsQueryResult
results p = record {
  transaction_id = 0;
  host_name = some (p ∷ []);
  address = p;
  time_live = 60;
  validity_end_time = 60;
}

abbrev nodes : State
nodes = record {
  next = λ p. none;
  prev = λ p. none;
  value = λ p. none;
  head = none;
  tail = none;
  count = 0;
  cmp = none;
  del = false;
  freed = [];
  deleted = [];
}
