-- ===== src/Lib.antt =====
-- The core of the negare API (apps/api), a NestJS server of a file catalogue: resumable uploads and
-- the codes, passwords, sessions and refresh tokens of its users, and the likes, bookmarks, downloads
-- and counters of the catalogue.
--
-- Upload (apps/api/src/core/upload). A client opens a session (`init`), writes chunks in any order
-- (`writeChunk`), asks for the status, and ends with `finish` or `abort`. The session is a status
-- record in Redis with a version, patched by compare-and-set under a lock; the bytes lie in a
-- temporary file, which `finish` sends to the storage before it writes the row of the file.
--   Upload/Types: upload.types.ts, upload.tokens.ts, the merge of patches.
--   Upload/RedisStore: upload.state.redis.ts; Laws has the contract of the store, Races two clients.
--   Upload/Services: the interfaces of the store, the temporary files, the storage and the media.
--   Upload/Names: names, paths, allow lists and URLs; Names/Paths the safety of directories.
--   Upload/Session: the state and the private methods of upload.service.ts.
--   Upload/Chunk: init, writeChunk, getStatus, abort. Upload/Remote: progress and retries.
--   Upload/Finish: finish. Finish/Delivered: what a finish that returns has done. Finish/Willing,
--   Steps, Returned: where everything it calls goes well, it returns.
--   Upload/Fallback: patch, with and without compare-and-set.
--   Upload/Indexes, WellFormed, Geometry, Completeness: lists of chunk indexes and their meaning.
--   Upload/Tracking, ChunkSteps, Invariant, Opening: every record stays well formed.
--   Upload/Accept, Taken, Assembly, Assembled: chunks are taken and make up the content.
--   Upload/Disk, Tests: instances in memory, and the theorems at them.
-- Auth (apps/api/src/core/auth). Auth/Sessions is session/session.service.ts, Auth/Refresh is
-- refresh.service.ts with the blacklist of token/token.service.ts: a refresh token is a JWT whose
-- id must be on an allow list in Redis, from where a refresh takes it and puts a new one.
-- Refresh/Spent, Single, Issued: what becomes of the ids.
-- Auth/RateLimit: otp/otp-rate-limit.service.ts and refresh-rate-limit.service.ts.
-- Auth/Otp is otp/otp.service.ts: a code sent by SMS or mail, its attempts, the block after too many,
-- and the ticket for the code. Otp/Types has its state, Otp/Request `requestOtp`. Otp/Guesses and
-- Issue: how many guesses a code stands; Once, Shut, Lockout, Accepted: what verifying answers.
-- Auth/Password is password/password.service.ts, with Password/Types its state, on the table of users
-- of Auth/Users: the ticket is spent for a password, which logs the user in. Password/Ticket, Saved,
-- Login, Accounts: its theorems; Password/Handover joins the two services.
-- Auth/Service is auth.service.ts: `logout` and `rotate`, with Service/Logout what a logout closes;
-- Service/Login is `login`, with Service/SignedIn what it leaves.
-- Auth/Tokens is token/token.service.ts, Tokens/Guards the guards of guards/jwt-auth.guard.ts and
-- guards/hybrid-auth.guard.ts; Bearer, Admitted and Shown: whom they let in.
-- Users/Profile is apps/api/src/core/users/profile (profile.service.ts, username.rules.ts); Users/Access
-- is apps/api/src/common/guards/roles.guard.ts with catalog.policies.ts and
-- supplier-ownership.guard.ts of apps/api/src/catalog.
-- Catalog (apps/api/src/catalog). Keyset: the lists with a cursor of the services of likes, bookmarks
-- and downloads, in Likes, Bookmarks and Downloads; Keyset/Order, Complete: reading page after page.
-- Likes/Count: the count of a product. Counters is counters/counters.service.ts, whose counts wait in
-- Redis until a flush adds them to the rows; Counters/Sums, Conserved: none is lost.
-- Categories is categories/categories.service.ts: Categories/Paths the way from a category to its root,
-- Removal and Moves what becomes of it, Tree the tree, with Tree/Shape and Shown what stands in it.
-- Products is product/product.service.ts: Products/Editing and Links create and update, Update what
-- they leave; Listing the filters and the orders, Paging and Popular page after page.
-- Catalog/Pagination is apps/api/src/catalog/utils/pagination.util.ts, Durations is
-- apps/api/src/shared/utils/parse-duration.util.ts.
-- Catalog/Slugs is apps/api/src/catalog/utils/slug.util.ts; Slugs/Shape: what a slug looks like.
-- Base has texts, tests, and methods as functions from a state to a result and a state; Redis the
-- keys, sets and records of Redis with the laws that are relied on, and an instance in memory.
--
-- Parameters. Redis, the file system, the sniffing of types, the storage driver, the media table,
-- Unicode normalisation, the percentage in doubles, JWTs, hashes and the gateways of messages are
-- records of operations with their documented laws. Tables of the database are lists of rows. One
-- call runs at one time, and calls that hold the lock of
-- a session follow each other; a patch that another client breaks is in RedisStore/Races. Lower case
-- is that of ASCII, but for slugs, where it is a parameter. The network to Redis does not fail.
-- Loops are structural; the retries of a remote upload are counted by the attempts that are left.
-- Not modelled: controllers, DTOs, configuration, the gateway's sockets, the queries for users, roles
-- and tags, mail and SMS: they bind the services to the framework, the database and the network.
-- The fuel of `read_all` is more than there are rows; that of `decimal` is the number.
pub mod Auth
pub mod Base
pub mod Catalog
pub mod Durations
pub mod Redis
pub mod Upload
pub mod Users
