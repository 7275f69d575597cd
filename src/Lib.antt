-- ===== src/Lib.antt =====
-- Verification of the backend of Heofberu, a world of role-playing games: its accounts, its
-- articles, its campaigns and its character sheets. The theorems are about definitions that follow the Python
-- source; paths are from the root of the repository.
--
-- Prelude: the shared names. Numbers are natural numbers where the source's are not negative, and
-- Prelude/Int.antt has integers, with Python's floor division, for scores and hit points. A
-- function that raises returns a Result (Prelude/Result.antt); the account service, whose state
-- comes back after a raise too, is in the state monad of Prelude/State.antt. A table with one row
-- for a key is a function of the key, other tables are lists of rows.
--
-- Core: app/core/base/transaction.py (Core/Transaction.antt). A program is made of repository
-- writes, registrations of callbacks, blocks, exceptions, cancellations and handlers; it runs on a
-- session with its depth, the rows that it sees, the committed rows and the callbacks that were
-- called. Not modelled: a cancellation during the COMMIT or a callback.
-- Core/Pagination.antt is app/core/pagination.py, with a client that follows the cursors of a
-- listing for so many pages. Core/RateLimit.antt is the counting of app/middleware/rate_limit.py; a
-- flag says whether Redis fails, and then the counters in memory count.
--
-- Auth: app/core/security/token.py (Auth/Token.antt), app/features/auth/sessions.py
-- (Auth/Sessions.antt), app/features/auth/service.py and the current user of
-- app/features/auth/dependencies.py (Auth/Service.antt). Auth/World.antt is the state: the users,
-- and the Redis keys with the millisecond at which each expires. `faults` says which of the coming
-- calls of Redis, of the database or of the hasher fail. The clock stands still during a request.
-- The JWT library and the hashing of passwords are parameters, in the record Outside; IsSigned is
-- what the theorems use of tokens: a token has one payload, and no two payloads share a jti.
-- Auth/History.antt is any sequence of requests, delays and outages. Not modelled: registration,
-- the mail of a forgotten password, the cookie headers.
--
-- Articles: app/features/articles/access.py and app/features/articles/workflow
-- (Articles/Workflow.antt), app/features/articles/revisions/merge.py (Articles/Merge.antt). The
-- UPDATE with its conditions is one step. A text is the list of its lines, and the matching blocks
-- of difflib are a parameter. The rows that the writes touch are in Articles/Rows.antt, as one
-- library of articles, revisions and proposals; a handler answers the new library or an exception,
-- and an exception leaves the library as it was, since its block rolls back. Articles/Writer.antt is
-- crud/writer.py, Articles/Revisions.antt the history of crud/repository.py and
-- revisions/hashing.py, Articles/Crud.antt is crud/service.py, Articles/Tree.antt is
-- tree/repository.py, Articles/Slug.antt the slugs of crud/repository.py, Articles/Slugify.antt is
-- app/features/shared/slug.py, Articles/Rebase.antt and Articles/Proposals.antt are
-- proposals/service.py with proposals/repository.py. Creating, editing, restoring, proposing,
-- accepting, rejecting and withdrawing read before their block opens, so they take two libraries,
-- the one read and the one found by the block, and the theorems about them hold whatever ran
-- between. Not modelled: the listings, the diff, tags, images, relations and subtypes, so neither
-- is the foreign key of a subtype that goes between the two libraries.
--
-- Campaigns: app/features/campaigns/access.py (Campaigns/Access.antt), base.py with the rows
-- (Campaigns/Rows.antt), crud/ (Campaigns/Crud.antt) and characters/ (Campaigns/Characters.antt,
-- Campaigns/Participation.antt). A handler answers the new store or an exception. Each write locks
-- its campaign, so the write is one step; whether a character is free is read without that lock,
-- and adding takes the store which that query saw apart from the one in which the unique index
-- decides. Not modelled: sessions, notes, reviews, and the listings.
--
-- Characters: the tables are in Characters/Db.antt. Access.antt is
-- app/features/characters/access.py; Ability.antt is ability_score/calculator.py; Progression.antt
-- is progression/rules.py with the checks of feats/validation.py and progression/schemas.py that
-- they call; Sheet.antt is the hit points, rests and level cap of crud/rules.py, crud/service.py,
-- gm_panel/hp and gm_panel/level; Conditions.antt is conditions/; Spells.antt is spells/;
-- Proficiencies.antt is proficiencies/resolver.py. A campaign is the answer to one question,
-- whether a user is the game master of a campaign in which the character is active. Not modelled:
-- creation and deletion of a character, levelling up and rebuilding it, items, grants.
--
-- Fuel: the client of the pages (walk) needs one page more than there are rows; the search for a free
-- slug (next_free) has one turn more than there are taken slugs, which is enough; the digits of a
-- number have as much fuel as the number; the walk over the ancestors has 256 levels, the limit in
-- its query, and a path has at most 32. Every other loop of the source that is modelled runs over a
-- list, and so does its definition. The routers, the schemas and the SQL of the other features are
-- not modelled.
pub mod Prelude
pub mod Auth
pub mod Articles
pub mod Characters
pub mod Campaigns
pub mod Core
