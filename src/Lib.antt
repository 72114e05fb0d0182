-- ===== src/Lib.antt =====
-- The backend of a learning platform: students register and log in, work through lessons, and take
-- proctored exams against a countdown. The services keep their rows in Postgres through TypeORM, and
-- the running exams in Redis, whose expiry events end them.
--
-- Each part is a module, and each service method one function over the part's store:
--
-- Base: Boolean tests, lists, rows of a table (`find`, `select`, `count`, `update`, `delete`), sorting
--   by a key, distinct ids, and the monad `Action` of a method, which reads and writes a store and
--   returns or throws. `transaction` undoes the writes of a method that throws.
-- Crypto: the interface of bcrypt.
-- Redis: `RedisClient`, the interface of the server with the documented behaviour of its commands, any
--   of which may be rejected; `Service` is src/modules/redis/redis.service.ts, `Keys` is
--   redis.constants.ts and the subscriber of redis.module.ts.
-- Exam: `Types` holds the rows and the store; `Scoring`, `Codes`, `Start`, `Sessions` and `Submit`
--   are the methods of src/modules/exam/exam.service.ts, `TestSessions` is
--   test-session.service.ts, `Keyspace` is exam-keyspace.handler.ts, `Gateway` is exam.gateway.ts,
--   whose rooms and timers take joins, intervals, expiries and submissions as steps in any order;
--   `Controller` is exam.controller.ts. `Requests` is a step relation of many requests on one
--   database.
-- Auth: `Tokens`, `Accounts` and `Sessions` are src/modules/auth/auth.service.ts, over the rows of `Types`;
--   `Strategies` is src/modules/auth/strategies, the checks of a token's claims.
-- Common: `Roles` is src/common/guards/roles.guard.ts, `I18n` is src/common/i18n/types.ts, `Problems` is
--   src/common/filters/global-exception.filter.ts, `Rls` is src/common/interceptors/rls.interceptor.ts.
-- Learning: `Student`, `Curriculum`, `Admin` and `Translations` are the methods of
--   src/modules/learning/learning.service.ts.
-- Catalog: `Listing` and `Admin` are the reads and the writes of src/modules/catalog/catalog.service.ts,
--   over the rows of `Types`; `Listing.Paging` follows the cursors from page to page.
-- Mail: `Escaping`, `Tokens` and `Conditionals` are src/modules/mail/template.renderer.ts, over texts as
--   lists of code points.
-- Profile: src/modules/profile/profile.service.ts.
-- Storage: `Keys` and `Objects` are src/modules/storage/storage.service.ts.
-- Examples: concrete platforms, and each result applied on them.
--
-- A method name in camel case stands here with underscores (`startExam` is `start_exam`). Ids are texts;
-- the serial ids of the token tables are numbers with their next value in the store. Times are
-- milliseconds and come in as arguments, as do new ids, salts and random texts. A method runs without
-- interruption, except where another request can come between its awaits and matters: there the second
-- half is a definition of its own (`begin_session`, `expire_session`, `rotate`, `claim_token`,
-- `consume_from`), which takes what the first half has read. The policies of the migrations on
-- `exam_attempts` and `student_purchases` are part of the queries. The loops of the code run over the
-- rows that a query returned and need no fuel; only the reader that follows the cursors of the catalog
-- (`read_all`) counts its requests, and one more than there are rows is enough. Times of the catalog
-- are microseconds, as Postgres keeps them, and whole milliseconds where the source holds a Date.
--
-- Outside the repository, and so parameters: Redis, bcrypt, the signing of tokens, JSON, `trim`
-- and `toLowerCase`, links to stored videos, the S3 client, ILIKE and the order of the ids in
-- Postgres, ISO texts of times, the URL class, the translations of nestjs-i18n, and the rounding
-- of a quotient of doubles in the progress summary. The quotient of doubles in the score of an
-- exam is the parameter `Rounding`; marks are integers, and the results on scores are for exams
-- whose marks are not negative. A command of Postgres that fails is modelled in `startExam` after
-- its transaction (`StartFaults`) and in the interceptor (`Faults`); elsewhere Postgres answers.
-- The foreign key of an attempt's certificate, which only rows from before it can break, is not
-- modelled. Not modelled: the delivery and the handshake of the gateway, the other controllers and
-- request validation, the sending of mails, health checks and the seeder.
pub mod Base
pub mod Crypto
pub mod Redis
pub mod Exam
pub mod Auth
pub mod Common
pub mod Learning
pub mod Catalog
pub mod Mail
pub mod Storage
pub mod Profile
mod Examples
