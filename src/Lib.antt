-- ===== src/Lib.antt =====
-- openiked-portable: an IKEv2 daemon, iked, and its control program.
--
-- The daemon receives IKE messages, parses their payloads (iked/ikev2_pld.c), looks up a policy of
-- the configuration for a new peer (iked/policy.c), negotiates the proposals of both sides
-- (iked/policy.c), and moves the state of the IKE SA on as the peer shows what the policy asks for
-- (sa_state of iked/policy.c). The model has a module for each of these parts:
--
-- - Base: shared names, Boolean tests on native numbers, lists by native length, rules for `if`.
-- - Addr: sockaddr_cmp, prefixlen2mask, prefixlen2mask6, mask2prefixlen and mask2prefixlen6 of
--   iked/util.c, addr_cmp of iked/policy.c. A sockaddr is its family and the words that are read.
-- - Proposal: proposals_match, proposals_negotiate of iked/policy.c, config_add_proposal,
--   config_free_proposals and config_add_transform of iked/config.c. Arrays over the transform
--   types are functions, the two nested loops are structural recursions that pass what the code
--   keeps in local variables (Match), and scores wrap around at 2^32.
-- - Policy: policy_calc_skip_steps, policy_test and policy_test_flows of iked/policy.c. The tail
--   queue of policies is a list, a pointer to a policy is its position, and the array pol_skip of
--   all policies is a function of the step and the position. RB_FIND of sys/tree.h is a parameter.
--   The loop of policy_test has fuel: a round for each policy and one for the end.
-- - Sa: sa_state, sa_stateok, sa_stateflags of iked/policy.c, and the part of sa_new that sets the
--   required flags; ikes_sa_established_* are counters modulo 2^64. Sa.Counters has the gauge with the
--   part of config_free_sa of iked/config.c that counts it down.
-- - Payload: iked/ikev2_pld.c. Payload.Transforms has ikev2_pld_xform and ikev2_pld_attr,
--   Payload.Association ikev2_pld_sa, Payload.Fields the payloads KE, IDi, IDr, CERT, CERTREQ, AUTH
--   and NONCE, Payload.Configuration ikev2_pld_cp, Payload.Selectors ikev2_pld_tss and
--   ikev2_pld_ts, Payload.Deletion ikev2_pld_delete, each with its validator; Payload.Quick
--   ikev2_validate_pld and ikev2_pld_parse_quick; Payload.Identity what ikev2_print_id of
--   iked/ikev2.c refuses. The message buffer is a list of bytes, and a read outside it is an
--   outcome of its own (fault). The loops have the size of their part of the message, and one, as
--   fuel: a round takes four or eight bytes of it. X509_NAME_oneline of OpenSSL is a parameter.
-- - Fragment: ikev2_pld_ef and ikev2_frags_reassemble of iked/ikev2_pld.c, with the array of
--   fragments as a list of optional byte strings, and the counters ikes_frag_* modulo 2^64. What
--   ikev2_msg_decrypt returns for a fragment is a parameter there, and Msg.Receiving fills it. A
--   message that is longer than IKED_MSGBUF_MAX is given up, since ibuf_new fails.
-- - Notify: ikev2_pld_notify of iked/ikev2_pld.c. The fields of the message that it fills are a
--   record, the fields that it reads of the SA and the policy another; what ikev2_nat_detection
--   computes is a parameter.
-- - Crypto: struct iked_hash and struct iked_cipher, hash_new, cipher_new and the calls of
--   iked/crypto.c. libcrypto is a parameter, Openssl, and Crypto.Laws has what is documented of it;
--   Tests.Toy shows that this can hold.
-- - Msg: iked/ikev2_msg.c. A buffer is a list of at most IKED_MSGBUF_MAX bytes, random bytes are a
--   parameter. Msg has ikev2_msg_encrypt, ikev2_msg_integr and ikev2_msg_decrypt; Msg.Wire the headers
--   (ikev2_add_header and others of iked/ikev2.c), ikev2_msg_encrypt_prepare, ikev2_msg_send and
--   ikev2_msg_cb; Msg.Sending ikev2_msg_send_encrypt and ikev2_send_encrypted_fragments, whose loop
--   is a recursion on the number of fragments; Msg.Receiving what happens to a fragment that comes
--   in, up to ikev2_pld_ef. Msg.Sealed, Msg.Opened, Msg.Transit, Msg.Carried, Msg.Delivered,
--   Msg.Fragmented and Msg.Arrives lead from the text to the peer, step by step.
-- - Queue: the queues of messages of iked/ikev2_msg.c, ikev2_msg_enqueue, ikev2_msg_lookup,
--   ikev2_msg_prevail, ikev2_msg_dispose, ikev2_msg_flushqueue, ikev2_msg_retransmit_response,
--   ikev2_msg_response_timeout and ikev2_msg_retransmit_timeout. A tail queue is a list, an entry is
--   known by its place, and whether a datagram can be sent is a parameter.
-- - Recv: ikev2_recv of iked/ikev2.c, from the lookup of the SA on. How far a message gets before the
--   handlers is a value (Gate); ikev2_init_recv and ikev2_resp_recv are a parameter.
-- - Parse: ikev2_pld_parse, ikev2_pld_payloads, ikev2_pld_e and ikev2_pld_eap of iked/ikev2_pld.c,
--   which compose the parsers of Payload, Notify and Fragment. A decrypted text is parsed by the same
--   loop, with another switch. ikev2_msg_decrypt and eap_parse of iked/eap.c are parameters. The
--   loop has the length of the message, and one, as fuel.
-- - Tests: concrete runs of all of these.
--
-- Not modelled: iked/eap.c; the handlers of iked/ikev2.c behind ikev2_init_recv and ikev2_resp_recv;
-- certificates (iked/ca.c, iked/ocsp.c), signatures and key exchange, which call OpenSSL; the kernel
-- interfaces (iked/pfkey.c, iked/vroute.c), processes and sockets, which are I/O; the grammar of
-- iked/parse.y;
-- the trees of iked/iked.h; ikectl. Allocations succeed, and logging is left out, but for what
-- print_hex reads of a CP payload.
mod Base
pub mod Addr
pub mod Proposal
pub mod Policy
pub mod Sa
pub mod Payload
pub mod Fragment
pub mod Notify
pub mod Crypto
pub mod Msg
pub mod Queue
pub mod Recv
pub mod Parse
mod Tests
