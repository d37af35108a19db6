-- ===== src/Lib.antt =====
-- galaxy_ng: a verification library for the server side of Ansible Galaxy.
--
-- The program is a Django plugin of pulp. Twelve of its parts are modelled here; they meet in the
-- database, in the settings and in the policies, and each stands in a directory of its own.
--
-- Settings/ - dynamic settings. galaxy_ng/app/models/config.py keeps settings as rows with a key, a
-- value and a version; SettingsManager.create takes a lock, numbers the new row, deletes old versions
-- and the hooks of Setting rewrite the copy in Redis that galaxy_ng/app/tasks/settings_cache.py holds.
--   Rows      Row, filter, get_setting_from_db, get_all, as_dict, base_key
--   Cache     the connection, acquire_lock, release_lock, update_setting_cache, get_settings_from_cache
--   Manager   create, set_value_in_db, set_secret_in_db, delete_latest_version, delete_all_versions,
--             and settings_data, the source that galaxy_ng/app/dynaconf_hooks.py reads
--   Writes, History, Reads, Undo, Dict, Locks, Coherence   the proofs
-- The state is a World: the rows and the connection; an operation takes a World to an outcome and a
-- World. The attempts of create count down from ten, as range(10) does. Text is a list of code points.
-- The parameters, in Backend, are dynaconf's upperfy, the database's case folding and the validators
-- of the schema; the hypothesis UpperfyKeepsKey says that upperfy changes no more than case. A
-- plain queryset tells keys in different case apart (exact_keys), the manager's filter does not. Each call of
-- Redis may end in an error, as the connection says for it (faulty); the error comes before the first
-- command of a call. The expiry of the lock after twenty seconds and of the cached copy, and the rollback
-- of a transaction, are not modelled.
--
-- Access/ - access control, galaxy_ng/app/access_control.
--   Statement, Policy/   the tables of statements/standalone.py, legacy.py, insights.py, pulp.py and
--             roles.py, entry by entry
--   Engine    drf-access-policy, a parameter, with its documented behaviour as IsDocumented
--   Policies  _entitelify, and GalaxyStatements of access_policy.py
--   Model, Conditions/   the condition methods of access_policy.py as functions of the permissions of
--             the user and of the rows that they query; an exception is a value of Result
--   LockedRoles   _process_permissions of statements/roles.py; its recursion takes fuel, and a test
--             shows that sixteen levels process the whole table; RoleTotal: what fuel is enough
--   Entitlement, Surface, Laws/   the proofs
--   Selection get_access_policy, get_view_urlpattern, scope_queryset and scope_synclist_distributions
-- The permission backends of Django and pulp are the parameter Perms.
--
-- Signals/ - galaxy_ng/app/signals/handlers.py, which keeps the roles and assignments of pulp and of
-- DAB (django-ansible-base) alike.
--   Model     the rows, the signals that are received and the calls that are made
--   Permissions, Roles, Assignments   the handlers, each a function from the tables to its calls
--   Dispatch  rbac_state with its two flags, the context managers, and the dispatch of a signal with
--             the signals that its calls fire; dispatch takes fuel for the depth of nested signals,
--             and two levels suffice for handlers that set a flag
--   Copying   the proofs of the permissions
-- What a call does to the tables and which signals it fires is the parameter Library; the handlers of
-- repositories and distributions, and the log messages, are not modelled.
--
-- Namespaces/ - galaxy_ng/app/models/namespace.py and the handlers of collections and of namespace
-- metadata in galaxy_ng/app/signals/handlers.py.
--   Model     the rows, get_or_create, set_links, metadata_sha256 and the two handlers
--   Metadata  the proofs
-- The hash of the fields is a parameter; a dictionary of links is the list of its pairs.
--
-- Hostname/ - alter_hostname_settings of galaxy_ng/app/dynaconf_hooks.py, the hook that makes the
-- settings of host names from the headers of a request.
--   Split     split and strip of Python; Hook: the functions; Forwarded, RoundTrip: the proofs
--
-- Startup/ - the rest of galaxy_ng/app/dynaconf_hooks.py: post, which completes the settings once when
-- the program starts.
--   Model     settings that are read by name, and the dictionary that the hook fills
--   Auth, Logging, Paths, Keycloak, Ldap, Storage   the functions that post calls; Post: their
--             composition, with what happens where a resource server is connected
--   Classes, Backends, Connected   the proofs; Storage and Keycloak hold their own
-- A list that is changed in place is followed where it is read again (after_socialauth). The settings
-- of django-ansible-base, the verdict of dynaconf's validators, the constants of ldap and the parser
-- of json are parameters.
--
-- ApiSpec/ - galaxy_ng/app/utils/apispec/id_fix.py, a script that gives the operations of an OpenAPI
-- document shorter ids.
--   Texts, Paths   the patterns, and what is read off a path; Transform: the new id of an operation
--   Unique    ensure_unique_ids; Document: the document and the script as a whole
--   Bounds, Numbering, Distinct, Words, Validate   the proofs
-- The order of the set of noise words is an argument. Letters and digits are those of ASCII.
--
-- Upstream/ - the functions of galaxy_ng/app/utils/galaxy.py that read another galaxy.
--   Run       a session: the number of requests, the sleep, the cache and what was sent, and runs that
--             end with a result or an exception
--   Fetch     safe_fetch and paginated_results; Owners: find_namespace and the owners of a namespace
--   Namespaces, Roles, Collections   the three generators
--   Tries, Paging, Stuck   the proofs
-- The server is a parameter, which may answer a request differently the next time; it answers every
-- request, so that the exceptions of requests.get are not modelled. safe_fetch counts
-- its own tries; the loops over pages take fuel, as a server may have pages without end, and as many
-- rounds as there are pages suffice. Json holds the documents that are read, with natural numbers.
--
-- RoleImport/ - legacy_role_import of galaxy_ng/app/api/v1/tasks.py, and galaxy_ng/app/api/v1/utils.py.
--   Versions  normalize_versions, compute_all_versions, parse_version_tag and sort_versions
--   Model, Services   the rows; git, galaxy_importer and the owners of a namespace, find_real_role and
--             do_git_checkout; Destination, Import: the namespaces of a role, and the import
--   Providers process_namespace of galaxy_ng/app/utils/legacy.py, which gives a standalone namespace its
--             provider, a v3 namespace, with the owners that upstream names
--   Allowed, Tags, Bound, Kept   the proofs
-- An import is a function from the rows to a role or an exception, with the rows that were written
-- before it. LooseVersion, semantic_version and the uuids are the parameter VersionLibraries. Of the
-- metadata of a role the dates, the tags, the dependencies, the platforms, the html of the readme and
-- two copies of the reference are left out, and so is the log.
--
-- Publishing/ - galaxy_ng/app/tasks/publishing.py and galaxy_ng/app/tasks/promotion.py.
--   Tasks     the tasks as the calls of pulp that they make; Approved: the proofs
-- A task that is dispatched runs later; run_approvals runs the approvals that an upload dispatched, one
-- after the other. What pulp does at a call is not modelled; whether general_create takes the uploaded
-- archive is the field is_accepted.
--
-- Migration/ - galaxy_ng/app/migrations/0029_move_perms_to_roles.py, which turns permissions into roles.
--   Translators  the two tables, entry by entry; Roles: the functions
--   Preserved, Batches   the proofs
-- What a locked role gives is set by a hook that runs later and is not part of the migration.
-- The rows of guardian's tables are arguments. The SQL that drops constraints is not modelled.
--
-- Names/ - galaxy_ng/app/utils/namespaces.py and the uuids of galaxy_ng/app/utils/galaxy.py.
--   Digits    str, hex and int of Python for the texts that occur; their fuel is the number itself
--   Uuid, Namespaces   the functions; Available: the search for a free name, with fuel for its tries
-- The regular expression of galaxy_importer is a parameter with the documented meaning.
--
-- Prelude/ holds the Boolean tests, the list functions over the native natural numbers, and texts.
pub mod Prelude
pub mod Settings
pub mod Access
pub mod Signals
pub mod Migration
pub mod Publishing
pub mod Names
pub mod Namespaces
pub mod ApiSpec
pub mod Json
pub mod Startup
pub mod RoleImport
pub mod Upstream
pub mod Hostname
