-- ===== src/Lib.antt =====
-- The verification library of keep-api-gateway, the API service of the Keep platform. Eight parts of
-- it are here, each a module with its children. They share Prelude: tests on numbers, lists, texts, results,
-- dicts and JSON values.
--
-- Cel, of src/repositories/cel_to_sql: a CEL filter that a user wrote becomes an SQL filter.
-- Converter is cel_ast_converter.py: visit goes over a parse tree of celpy, and callback is its
-- methods by rule. Ast is ast_nodes.py, Metadata holds the records of properties_metadata.py, with
-- Paths for its texts, Mapper is properties_mapper.py, whose `__visit_nodes`, `__visit_unary_node`
-- and `__visit_comparison_node` keep their names. Meaning says what a mapped tree says of a row. Sql
-- is sql_providers/base.py with the methods of postgresql.py in the place of those that it
-- overrides: build_sql_filter is `_build_sql_filter`, and Dialect and Operands are the methods that
-- it calls. Convert is `convert_to_sql_str_v2` and the SQL of an order, and Validate is
-- src/services/cel_validation.py. The parser with Converter behind it, the lookup of a property's
-- metadata and SQLAlchemy's literal processor are arguments; the texts of messages are left out.
--
-- Sse, of src/services/sse.py: the broadcaster that sends notifications to the browsers of one process.
-- A stretch of a coroutine between two awaits is one step on the record Broadcaster: subscribe, pull (one
-- turn of the loop of `subscribe`), leave, notify, close_all and reopen. A run is a list of such steps in
-- any order. Threads, signal handlers and `notify_sse` are left out.
--
-- Fanout, of src/services/sse_fanout.py: the same notifications between processes, through Redis.
-- broadcast and deliver_payload are `broadcast` and `_deliver`; happen is what the subscriber loop does to
-- the object's attributes while a publish waits. The Redis client is outside. The text that is published,
-- which json.dumps makes of any value, is left out. Times are whole numbers.
--
-- Dedup, of src/services/alert_deduplicator/alert_deduplicator.py: the rules that find an alert to be a
-- duplicate. apply_rule and apply_rules are `_apply_deduplication_rule` and `apply_deduplication`, and
-- Rules has the choice of a rule and create, update and delete with the table of src/repositories/db.py.
-- SHA-256, UUIDs and the stored hashes are arguments. Statistics and provisioning are left out.
--
-- Access, of src/services/identity_manager: who makes a request and what is allowed. Access is rbac.py and
-- tenant_access.py with the query of the grants in src/repositories/db.py; Verifier is
-- authverifierbase.py: call, authenticate, authorize, extract_api_key and verify_api_key are its methods,
-- and touch is the note of a key's last use. Presented and Spelled say what a request brings and what
-- scopes mean. The token check and the lookup of keys are arguments.
--
-- ActiveUsers, of src/services/active_users.py: compute_active_users, with the query that it runs on the
-- table of audited actions. The gauge and the loop that sets it are left out.
--
-- Alerts, of src/repositories/db.py, src/services/enrichments_bl.py and src/utils/enrichment_helpers.py: the
-- row of `lastalert` that each fingerprint has. Normalize is `normalize_enrichments`; Enrich writes what it
-- gives to the row: apply_enrichments, enrich_entity and batch_enrich of db.py with enrich_entity_impl of
-- the service; Lifecycle is `apply_dismiss_lifecycle` and `set_last_alert`, whose attempts each
-- read the table as it is then and end as the database answers them; Counters is the four tracking fields. Enriched columns are written by name, so the
-- row keeps them as a dict. Times are whole numbers. The rules of extraction and mapping, and the DTOs
-- are left out.
--
-- Incidents, of src/repositories/db.py and src/services/incidents_bl.py: incidents and the alerts linked to
-- them, on the record Tables, whose last alerts are those of Alerts. Summary is what an incident sums up of
-- alerts, Linking is `add_alerts_to_incident` and `remove_alerts_to_incident_by_incident_id`, Changes
-- has merging, deletion, severity, status and confirmation, and perform is a call of any of these.
-- Enrichment is `_enrich_incident`, and Statuses is `is_all_alerts_in_status` with
-- `check_incident_resolution` of src/services/enrichments_bl.py. A call that raises leaves the tables as
-- they were last committed. Sets are lists without repetition. The database refuses what the schema forbids
-- and does not fail otherwise. Notifications, audits, the creation and the queries of incidents, and the
-- resolving by the first or the last alert are left out.
--
-- Two functions run on fuel: the printing of decimals, which has a unit for each digit and one more, and
-- the search of `__extract_fields`, which has one for each character.
--
-- Not modelled: the routes, the other queries of the database, the identity managers of the vendors,
-- the providers and the clients of outside services, which mostly call other systems; celpy's
-- parser, the sums and products of CEL, which stand for no filter, and the SQL of the other
-- dialects.
pub mod Prelude
pub mod Cel
pub mod Sse
pub mod Fanout
pub mod Dedup
pub mod Access
pub mod ActiveUsers
pub mod Alerts
pub mod Incidents
