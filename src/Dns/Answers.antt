-- ===== src/Dns/Answers.antt =====
-- What DomainNameIpv4Addr makes of a reply: the first address among the answers.
use poplar.Prelude.{
  ℕ, zero, suc, ◌+◌, ◌-◌, ◌%◌, ◌^◌, ◌<◌, ◌≡◌, refl, ap, ◌∙◌, true, false, List, Option, some, arith,
  ltb, ◌==◌,
}
use poplar.Run.{Run, ok, fault, out_of_bounds}
use poplar.Stream.Buffer.{Stream, readable}
use poplar.Dns.Packets.{
  ◌>>?◌, DomainNameHeader, DomainNameQuestion, DomainNameAnswer, header_parse,
  domain_name_question_parse, domain_name_answer_parse, answer_loop, query_type_a,
  query_class_internet_addr,
}
use poplar.Dns.Reply.{
  is_response, header_size, duplicate, with_answer, result_of, domain_name_ipv4_addr,
}

-- From `s` on, `n` answers are parsed that are not addresses, and `t` is left.
pub data Skips (fuel : ℕ) : ℕ → Stream → Stream → Type 0 where
  here : (s : Stream) → Skips fuel 0 s s
  skip :
      (n : ℕ) (s t u : Stream) (a : DomainNameAnswer)
      → domain_name_answer_parse fuel s ≡ some (ok (some a, t))
      → (a.type_of == query_type_a) ≡ false
      → Skips fuel n t u
      → Skips fuel (suc n) s u

loop_skip :
    (left fuel : ℕ) (s t : Stream) (a : DomainNameAnswer)
    → domain_name_answer_parse fuel s ≡ some (ok (some a, t))
    → (a.type_of == query_type_a) ≡ false
    → answer_loop (suc left) fuel s ≡ answer_loop left fuel t
unfolding answer_loop
loop_skip left fuel s t a e f = rw (answer_loop, domain_name_answer_parse, e, ◌>>?◌, f) refl

loop_found :
    (left fuel : ℕ) (s t : Stream) (a : DomainNameAnswer)
    → domain_name_answer_parse fuel s ≡ some (ok (some a, t))
    → (a.type_of == query_type_a) ≡ true
    → answer_loop (suc left) fuel s ≡ some (ok (some a))
unfolding answer_loop
loop_found left fuel s t a e f = rw (answer_loop, domain_name_answer_parse, e, ◌>>?◌, f) refl

loop_end : (fuel : ℕ) (s : Stream) → answer_loop 0 fuel s ≡ some (fault out_of_bounds)
unfolding answer_loop
loop_end fuel s = refl

answer_loop-Skips :
    (n left fuel : ℕ) (s u : Stream)
    → Skips fuel n s u
    → answer_loop (n + left) fuel s ≡ answer_loop left fuel u
answer_loop-Skips zero left fuel s u (here s') = ap (λ (k : ℕ). answer_loop k fuel s) (omega arith)
answer_loop-Skips (suc n) left fuel s u (skip n' s' t u' a e f r) =
    ap (λ (k : ℕ). answer_loop k fuel s) (omega arith)
    ∙ loop_skip (n + left) fuel s t a e f
    ∙ answer_loop-Skips n left fuel t u r

-- A reply whose header and question are as they should be: what is left behind the question, the name
-- that was asked for, and answers.
pub record IsReply (fuel : ℕ) (s : Stream) (header : DomainNameHeader)
    (question : DomainNameQuestion) (name : List ℕ) (left : Stream) : Type 0 where
  pub long : ltb (readable s) header_size ≡ false
  pub behind : Stream
  pub headed : header_parse s ≡ ok (header, behind)
  pub response : is_response header.flags ≡ true
  pub one : (header.questions == 1) ≡ true
  pub asked : domain_name_question_parse fuel behind ≡ some (ok (some question, left))
  pub of_type : (question.query_type == query_type_a) ≡ true
  pub of_class : (question.query_class == query_class_internet_addr) ≡ true
  pub text : duplicate question.query_name ≡ ok name
  pub answered : (header.answer_rrs == 0) ≡ false

reply_runs :
    (fuel now : ℕ) (s : Stream) (header : DomainNameHeader) (question : DomainNameQuestion)
    (name : List ℕ) (left : Stream) (a : Option (Run (Option DomainNameAnswer)))
    → IsReply fuel s header question name left
    → answer_loop header.answer_rrs fuel left ≡ a
    → domain_name_ipv4_addr fuel now s
      ≡ (a >>? λ r. some (ok (some (with_answer now header.transaction_id name r))))
unfolding domain_name_ipv4_addr result_of
reply_runs fuel now s header question name left a v e =
    rw
      (
        domain_name_ipv4_addr, v.long, header_parse, v.headed, ◌>>?◌, v.response, v.one,
        domain_name_question_parse, v.asked, v.of_type, v.of_class, result_of, duplicate, v.text,
        v.answered, answer_loop, e,
      )
      refl

-- A reply with the header and the question as they should be, and of whose answers, no more than the
-- header counts, the first that is an address comes behind others that are not: DomainNameIpv4Addr
-- returns the number of the query, the name that was asked for, that address and its time to live, and
-- the time of validity cut to 32 bits.
pub first_address :
    (fuel now n : ℕ) (s left u t : Stream) (header : DomainNameHeader)
    (question : DomainNameQuestion) (name : List ℕ) (a : DomainNameAnswer)
    → IsReply fuel s header question name left
    → Skips fuel n left u
    → n < header.answer_rrs
    → domain_name_answer_parse fuel u ≡ some (ok (some a, t))
    → (a.type_of == query_type_a) ≡ true
    → domain_name_ipv4_addr fuel now s
      ≡ some (
          ok (
            some (record {
              transaction_id = header.transaction_id;
              host_name = some name;
              address = a.addr;
              time_live = a.time_live;
              validity_end_time = (now + a.time_live) % 2 ^ 32;
            })))
first_address fuel now n s left u t header question name a v skips h e f =
    let count : header.answer_rrs ≡ n + suc (header.answer_rrs - n - 1) = omega (arith, h) in
    reply_runs fuel now s header question name left (some (ok (some a))) v (
      ap (λ (k : ℕ). answer_loop k fuel left) count
      ∙ answer_loop-Skips n (suc (header.answer_rrs - n - 1)) fuel left u skips
      ∙ loop_found (header.answer_rrs - n - 1) fuel u t a e f)

-- A reply with the header and the question as they should be, and with as many answers as the header
-- counts, none of which is an address: behind the loop the function reads an element behind the end of
-- the array of answers.
pub no_address :
    (fuel now : ℕ) (s left u : Stream) (header : DomainNameHeader) (question : DomainNameQuestion)
    (name : List ℕ)
    → IsReply fuel s header question name left
    → Skips fuel header.answer_rrs left u
    → domain_name_ipv4_addr fuel now s ≡ some (fault out_of_bounds)
no_address fuel now s left u header question name v skips =
    let count : header.answer_rrs ≡ header.answer_rrs + 0 = omega arith in
    reply_runs fuel now s header question name left (some (fault out_of_bounds)) v (
      ap (λ (k : ℕ). answer_loop k fuel left) count
      ∙ answer_loop-Skips header.answer_rrs 0 fuel left u skips
      ∙ loop_end fuel u)
