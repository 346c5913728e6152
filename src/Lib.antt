-- ===== src/Lib.antt =====
-- The knowledge base backend: a multi-tenant service (app) that keeps documents in PostgreSQL and,
-- derived from it, in a search index, and serves them by access rules.
--
-- How the parts interact. A handler authenticates a principal and asks `resolve` which knowledge
-- bases it may see (Authz). Changes of the index go through the outbox: a transaction inserts
-- events next to the rows it changes, and after its commit `drain` publishes them (Relay) by the
-- calls of the index (Es). The garbage collection deletes superseded versions in this way (Gc), and
-- the removal of a file (FileStore), on the tables of Db. The tables of a file are compared with
-- the index (Reconcile). The uploads of a month are metered (Quota). An ingestion (Ingest) parses a
-- file, matches its chunks with those of the version before, stages the rows of a new version with
-- their index events, drains them, and only then moves the pointers of the file; what a search
-- finds is checked against the tables before it is shown (Retrieval). The models that these steps
-- call are configured for a tenant or for the system (Models). Administrative actions append to a
-- log that is a chain of hashes (Audit). The handlers of documents put these parts together
-- (Documents), and those of knowledge bases change who may see what (Bases). The client library
-- sends requests again where that is safe (Sdk).
--
-- Which file models which part:
--   Es.antt            app/es_memory.py (FakeES: index, delete, get, scan), and the calls of app/es.py
--   Relay.antt         app/indexing/relay.py (_publish, drain, pending_count)
--     Relay/Accounts.antt, Relay/Effects.antt, Relay/Drain.antt, Relay/Emitted.antt   its theorems
--   Authz.antt         app/authz.py (resolve, can_write, is_kb_admin, is_tenant_owner, is_tenant_admin)
--     Authz/Sets.antt, Authz/Spec.antt, Authz/Allowed.antt, Authz/Roles.antt   its theorems
--     Authz/Grants.antt          app/routers/admin.py (grant, revoke), app/routers/members.py
--                                (bulk_grant, delete_user, _user_effective_kbs),
--                                app/middleware/auth.py (verify_api_key)
--     Authz/Grants/Bulk.antt     app/routers/members.py (_resolve_targets, grant_bulk)
--     Authz/Grants/Bulk/Targets.antt   its theorem
--     Authz/Grants/Members.antt  app/routers/members.py (update_user), with its theorem
--     Authz/Grants/Access.antt, Authz/Grants/Effect.antt   what these change in the decisions
--   Audit.antt         app/audit.py (append_audit, verify_audit_chain, anchor_audit)
--     Audit/Chain.antt, Audit/Tampering.antt, Audit/Overtaken.antt   its theorems
--   Db.antt            the tables of app/schema.sql, and the queries that the parts share
--   Gc.antt            app/indexing/gc.py (purge_versions, prune_outbox)
--     Gc/Batches.antt, Gc/Keeps.antt, Gc/Index.antt   its theorems
--   FileStore.antt     app/indexing/file_store.py (purge_file)
--     FileStore/Erased.antt   its theorem
--   Quota.antt         app/quota.py (get_limits, get_usage, check_quota, meter_ingest, meter_delete)
--     Quota/Limits.antt   its theorems
--   Sdk.antt           sdk/kb_sdk/errors.py (from_response), sdk/kb_sdk/client.py (_request)
--     Sdk/Retries.antt, Sdk/Codes.antt   its theorems
--   Retrieval/Simhash.antt   app/retrieval/simhash.py (to_signed, to_unsigned, hamming, same_segment)
--     Retrieval/Simhash/Distance.antt   its theorems
--   Retrieval/Guard.antt     app/retrieval/guard.py (postverify)
--     Retrieval/Guard/Checked.antt   its theorem
--   Retrieval/Core.antt      app/retrieval/orchestrator.py (_allowed_file_ids, _retrieve_core)
--     Retrieval/Core/Permitted.antt   its theorem
--   Retrieval/Anchor.antt    app/retrieval/anchor.py, app/retrieval/simhash.py (hamming_hex)
--     Retrieval/Anchor/Nearest.antt, Retrieval/Anchor/Resolved.antt   its theorems
--   Ingest/Diff.antt   app/ingest/diff.py (match, old_to_new_map)
--     Ingest/Diff/Matched.antt   its theorems
--   Ingest/Sources.antt   app/ingest/pipeline.py (_chunk_source, _summary_source, _new_chunks,
--                         _resolve_parse_cfg)
--   Ingest/Build.antt     app/ingest/pipeline.py (_build_sources), app/ingest/diff.py (prev_chunks,
--                         prev_summaries, reuse_vector)
--   Ingest/Chunker.antt   app/ingest/chunker.py (chunk_blocks, _apply_delimiter); the size is a number
--                         of tokens, and its two products with the float overlap are given
--     Ingest/Chunker/Ordered.antt, Ingest/Chunker/Barriers.antt, Ingest/Chunker/Slides.antt,
--     Ingest/Chunker/Delimited.antt   its theorems
--   Ingest/Stage.antt     app/ingest/pipeline.py (ingest_file: the rows of its first transaction)
--   Ingest/Publish.antt   app/ingest/pipeline.py (ingest_file)
--     Ingest/Publish/Atomic.antt, Ingest/Publish/Aligned.antt, Ingest/Publish/Indexed.antt,
--     Ingest/Publish/Succeeds.antt, Ingest/Publish/Headings.antt   its theorems
--     Ingest/Publish/Reconciled.antt   the ingestion and the reconciliation after it, with the
--       lemmas of Ingest/Publish/Agrees.antt, Ingest/Publish/Listed.antt, Ingest/Publish/Clean.antt
--       and Ingest/Build/Vectors.antt
--   Models.antt        app/models_registry.py (resolve_model, get_model_config, list_models),
--                      app/crypto.py
--     Models/Edits.antt  app/models_registry.py (create_model, update_model, delete_model,
--                        defaults_view), app/routers/models.py
--     Models/Effective.antt, Models/Unique.antt, Models/Unique/Updated.antt   its theorems
--   Reconcile.antt     app/indexing/reconcile.py (_es_get, _classify)
--     Reconcile/Agreement.antt, Reconcile/Reported.antt   its theorems
--     Reconcile/Repair.antt      app/indexing/reconcile.py (reconcile)
--     Reconcile/Fixed.antt       its theorems, with the lemmas of Reconcile/Sent.antt,
--       Reconcile/Repaired.antt, Reconcile/Converges.antt and Reconcile/Converged.antt
--   Documents.antt     app/routers/docs.py and app/routers/files.py (_can_read_file, _require_kb_write,
--                      _can_manage_file), app/middleware/auth.py (audit)
--     Documents/Uploads.antt   app/routers/docs.py (upload_doc, _kb_default_parser_config),
--                              app/routers/files.py (upload_to_drive)
--     Documents/Library.antt   app/routers/docs.py (remove_doc_from_kb, reparse_doc, update_doc,
--                              bulk_docs), app/routers/files.py (delete_file, rename_file,
--                              attach_file, detach_file)
--     Documents/Views.antt     app/routers/docs.py (get_doc, read_anchor, me, list_kb_docs),
--                              app/routers/files.py (list_files)
--     Documents/Requests.antt  the handlers above, one request after another
--     Documents/Kept.antt, Documents/Refused.antt, Documents/Tenants.antt,
--     Documents/Again.antt, Documents/Linked.antt   their theorems, with the lemmas of
--       Documents/Sound.antt, Documents/Kept/Edits.antt, Documents/Kept/Ingests.antt,
--       Documents/Tenants/Rows.antt, Documents/Tenants/Edits.antt and Documents/Tenants/Ingests.antt
--   Bases.antt         app/routers/kbs.py (list_kbs, create_kb, update_kb, delete_kb)
--     Bases/Access.antt   its theorems
--   Http.antt          the answers of handlers
--   Prelude.antt       numbers, lists, tables: what the parts share
--   Tests.antt         the theorems at concrete inputs
--
-- The state. A table is the list of its rows, in the order in which the queries read them; a
-- transaction is a function from tables to tables. An id is a uuid text, which the program only
-- compares: it is a number here. Times are numbers, read once in a transaction. What the program
-- finds outside of it (the time, whether an advisory lock is free, the hash functions and JSON
-- texts of Python's library, a client of the index whose calls may raise, the parser and the models
-- of an ingestion, the ids that uuid draws) is an argument.
--
-- Bounds and fuel. The loop that cuts a list of ids into batches runs on the length of the list as
-- fuel; each round removes an element at least. The windows over a long block take the number of
-- its tokens as fuel; a step moves on by a token at least. The retries of a request count down.
-- Versions are natural numbers; the threshold `active - retain + 1` stops at 0 instead of going
-- below, which changes nothing, since a threshold of 1 or less purges nothing.
--
-- Fingerprints have 64 bits: `hamming` counts that many.
--
-- Not modelled: the choice of a method of chunking, the queries and scores of the search engine,
-- the handlers of searches, conversations and operations, and the adapters of external services.
-- The advisory lock of a purge is an answer, not a queue: two purges do not interleave, nor do two
-- ingestions. Two appends to the audit log do so in Audit/Overtaken.antt only. The lengths of the
-- columns of kb_file are not checked: an insertion of a file and an update of its method go
-- through. New ids are taken not to collide.
pub mod Prelude
pub mod Es
pub mod Relay
pub mod Http
pub mod Authz
pub mod Audit
pub mod Db
pub mod Gc
pub mod Quota
pub mod Models
pub mod FileStore
pub mod Documents
pub mod Bases
pub mod Sdk
pub mod Retrieval
pub mod Ingest
pub mod Reconcile
pub mod Tests
