-- ===== src/Lib.antt =====
-- fail2ban: a server that reads the lines of logs, counts the failures of each address, and bans the
-- addresses that fail too often until their ban time is over.
--
-- A jail has a filter thread and an actions thread. The filter makes a `FailTicket` of each failure
-- that it finds in a line and gives it to its `FailManager`, which counts the attempts of an id
-- within the find time. Tickets that reach the limit are put into the queue of the jail; the
-- actions thread wraps them as `BanTicket` objects, gives them to its `BanManager`, which lists the
-- bans and says when they are over, and calls the actions, most of which are `CommandAction`
-- objects that run commands. Addresses are `IPAddr` objects; lists of addresses to ignore are
-- `IPAddrSet` objects, networks and names. Results of look-ups are kept in `Utils.Cache`.
--
-- The files and the code they model:
--
-- - Ticket (with Ticket/): fail2ban/server/ticket.py. `Ticket`, `FailTicket` and `BanTicket` are one
--   record with the class as a field. `setTime`, `setData`, `getData`, `update`, copying and printing
--   are left out. Of `_data` only the keys `matches` and `failures` are modelled. The estimate of
--   `adjustTime` is made in floats of 53 bits; the number of doublings that bring a quotient to 53
--   bits has the divisor as fuel, and more, which is enough for a count above 0.
-- - FailManager (with FailManager/): fail2ban/server/failmanager.py, `addFailure`, `cleanup`,
--   `delFailure`, `toBan` and the count of failures.
-- - BanManager (with BanManager/): fail2ban/server/banmanager.py, `addBanTicket`, `unBanList`,
--   `flushBanList`, `getTicketByID`, `setBanTime` and the look-up. The listings for users and the
--   look-up of countries and AS numbers are left out.
-- - Filter (with Filter/): fail2ban/server/filter.py. Filter/Dates is the choice of the date of a line
--   in `processLine`; what the date detector finds is an argument. The rest is the part after a line
--   has been matched: `addAttempt`, `processLineAndAdd`, `performBan`, `performSvc` and `commonError`,
--   with the queue of fail2ban/server/jail.py. The answer of the ignore list is a parameter.
--   `performBan` runs its loop with as many rounds as the failure list has tickets, which is enough
--   since each round takes one out of it.
-- - Actions (with Actions/): fail2ban/server/actions.py, `add`, `reload`, `removeBannedIP`,
--   `stopActions`, `run`, `__checkBan`, `__reBan`, `_prolongBan`, `__checkUnBan`, `__flushBan` and
--   `__unBan`. What an action answers to a call is a parameter that may depend on all calls before it;
--   the calls are part of the state. `run` is a list of rounds. `removeBannedIP` calls itself at most
--   twice for one id: the ids of the inner calls are listed. Told/ compares what an action was told
--   with the ban list. The status, the listings and the values for the tags of commands are left out.
-- - Command (with Command/): fail2ban/server/action.py, `CommandAction`: the flags of its families, the
--   memory of executed commands, and the methods that run commands. Tags of a command are replaced by
--   a parameter, which may fail with `ValueError`, and the answer of the shell is a parameter that may
--   depend on all commands run before. The loop of `_processCmd` has fuel for ten rounds, which is
--   enough since it returns at the second. What `beforeRepair` returns is an argument. Setting a
--   parameter of an action, which clears the memory, is left out, and so are log lines and time outs.
--   Command/Escape is `escapeTag`.
-- - Ignore (with Ignore/): fail2ban/server/filter.py, `addIgnoreIP` and `_inIgnoreIPList` without an
--   ignore cache. The own addresses of the host and the answers of the ignore command are parameters.
-- - IpAddr (with IpAddr/): fail2ban/server/ipdns.py, `IPAddr` and `IPAddrSet`. `inet_pton` and the
--   resolution of names are parameters. The cache of `__new__`, which returns an equal object, the
--   texts of addresses and the sets that are read from files are left out.
-- - BanTime (with BanTime/): fail2ban/server/jail.py, the formula of growing ban times and
--   `getMaxBanTime`, and fail2ban/server/observer.py, `incrBanTime`. The rows of the database are an
--   argument. A formula of the user and the random time are left out.
-- - Observer (with Observer/): fail2ban/server/observer.py, `failureFound` and `banFound`. The rows of
--   the database are an argument. What `failureFound` writes to a ticket object is written to the
--   failure list and the queue of the filter, but not to a ticket that the actions have taken.
-- - Database (with Database/): fail2ban/server/database.py, the loops of `getBansMerged` and
--   `getCurrentBans` that make tickets of rows. The rows are an argument: what sqlite answers to the
--   queries is not modelled. The ban time to correct by and `maxmatches` are arguments.
-- - Restore (with Restore/): fail2ban/server/jail.py, `restoreCurrentBans`. The tickets that the
--   database returns are an argument.
-- - Jails (with Jails/): fail2ban/server/jails.py. The making of a jail is a parameter.
-- - Server (with Server/): fail2ban/server/server.py, `addJail`, `delJail`, `startJail`, `stopJail`,
--   `stopAllJail` and `reloadJails`. The making of a jail is a parameter, and the calls in jails and
--   in the database are a list of events. A reload is these commands in the order in which
--   the client sends them. Settings, status, logging and daemon set-up are left out.
-- - Cache (with Cache/): fail2ban/server/utils.py, `Utils.Cache`.
-- - MyTime (with MyTime/): fail2ban/server/mytime.py, `seconds2str`.
-- - Common (with Common/): helpers. `Common.Dict` is a Python dict in insertion order, `Common.Int`
--   has the integers that times and durations are, on the native natural numbers.
-- - Samples and Tests: concrete inputs, and the theorems applied to them.
--
-- An object that the code changes in place is a record that an operation takes and returns. Where
-- the code holds a lock, the operation is one step. An exception is a value of the result: `none`
-- for `FailManagerEmpty`, `ValueError` and `TypeError`, a constructor of its own for the
-- `KeyError` inside `inc` and for the `RuntimeError` and `ValueError` of a command. Times and
-- durations are whole numbers, of microseconds in Filter/Dates and of seconds elsewhere; the
-- rounding of floats is modelled where the code rounds. Log lines are left out. Reading logs,
-- regular expressions, the parsing of dates, the queries of the database, the socket server, the
-- configuration reader, and what the shell does with a command are not modelled.
pub mod Common
pub mod Ticket
pub mod FailManager
pub mod BanManager
pub mod Filter
pub mod BanTime
pub mod Jails
pub mod Ignore
pub mod Actions
pub mod Observer
pub mod Server
pub mod Restore
pub mod IpAddr
pub mod MyTime
pub mod Cache
pub mod Command
pub mod Database
mod Samples
mod Tests
