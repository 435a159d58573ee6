-- ===== src/Lib.antt =====
-- PicoWEnvironmentLogger: the firmware's tasks, from the sensors and the button to the display and
-- the web page, and its event log, from a call of `log` to the UART and to the external flash.
--
-- The program. Tasks and interrupt handlers of a Raspberry Pi Pico W call EventLogger::log
-- (src/EventLogger.cpp), which numbers an event and puts it into a FreeRTOS queue. The logger task
-- takes events off the queue, builds a frame [magic][header][payload][crc32] of each, hands the
-- frame to UartDma (src/UartDma.cpp), whose transmit ring is emptied by DMA transfers, and appends
-- it to FlashLogStorage (src/FlashLogStorage.cpp). That is a circular log in an area of a W25Q32
-- flash, reached through FlashDriver (src/FlashDriver.cpp); its index (write address, oldest and
-- newest frame, count) is rebuilt from the flash at start-up, when src/main.cpp lets the logger's
-- numbers go on behind the newest frame. The other tasks are a command line on the console
-- (src/task_command.cpp), which pauses the log, sends or erases it; the thermometer and the pressure
-- sensor, read in rounds over an I2C bus that they share with the display under one mutex
-- (src/TemperatureTask.cpp, EnvironmentTask.cpp, AEADT7410.cpp, BME280.cpp, AQM0802.cpp); the ADC
-- (src/AdcLoggerTask.cpp); the button, which sends the display its mode (src/ButtonTask.cpp); and the
-- network with its web server (src/WifiTask.cpp, HttpServer.cpp), which shows the latest values.
--
-- Files. Each component is a module whose children hold the proofs.
--   Prelude   Boolean tests, lists over native numbers, casts and little-endian words; Memory the
--             flash contents as a function, with programming (clears bits) and erasing.
--   Crc       src/Crc32.cpp: calculate, calculate2, and the loops as crc_bit, crc_bits, crc_byte,
--             crc_bytes.
--   Protocol  include/EventId.h, LogTypes.h, LogProtocol.h, src/LogEvent.cpp: ids, levels, the
--             header and its bytes (header_bytes, header_of_bytes).
--   Frame     EventLogger::buildFrame as build_frame.
--   Driver    src/FlashDriver.cpp, on a record Board of the SDK calls (chip select, SPI, clock).
--             Driver.Chip states what the W25Q32 data sheet says of each command; the driver's
--             theorems take it as a hypothesis.
--   FlashApi  what the log uses of driver and mutexes, with laws; Client fills it with Driver, and
--             Client.Sim is a concrete chip that meets every hypothesis.
--   Storage   src/FlashLogStorage.cpp: Address (config and address helpers), State (object and
--             locks), Scan (isValidFrameAt, rebuildIndexFromFlash), Init (init, eraseLogArea),
--             Append, Read (readFrame and the walks that send frames); Recovery describes the
--             rebuilt index by the list of the frames in the flash.
--   Uart      src/UartDma.cpp: the rings, the writes, the transfer interrupt; a transfer reads its
--             bytes from the buffer's tail on, without going round (range).
--   QueueApi  the FreeRTOS queue with its documented behaviour; Logger src/EventLogger.cpp; Boot
--             src/main.cpp up to the start of the scheduler.
--   Console   src/task_command.cpp: the edited line (console_key), the commands (command_of), and in
--             Commands what they do.
--   I2c       the bus and its mutex as a record; Devices the transfers that BME280, AEADT7410 and
--             AQM0802 share; Release that each operation gives the mutex back. Bme280, Aeadt7410 and
--             Aqm0802 are the devices on it; Bme280.Start states what the BME280 data sheet says of
--             its registers.
--   DisplayMode, Button  include/DisplayMode.h and src/ButtonTask.cpp, one sample of the pin a step.
--   MovingAverage, AdcTask  include/utility.h and src/AdcLoggerTask.cpp.
--   EnvironmentData, EnvironmentTask, TemperatureTask, WifiTask, Http  the sources of these names
--             (Http is src/HttpServer.cpp): one function for a round of a task's loop, with what it
--             finds as an argument.
--   Examples  runs at concrete inputs.
--
-- Conventions. A method is a function from the object's state to result and state; C++ names are in
-- snake case; a buffer or null pointer result is an Option; `uint32_t` sums wrap (add32, u32), and a
-- `size_t` has 32 bits as on the RP2040. A method that prints does nothing else for it. Loops of the
-- log over addresses recurse on a fuel of the bytes of the area, since every round moves on by at
-- least one (see Storage.Read.Fuel and Storage.Recovery.Walk); the loop over pages has a fuel of the
-- bytes to write, which is enough (see Storage.Append.Reliable); the polling loops of the driver
-- have one round for each sleep that fits the deadline (see Driver.Poll). The spin loops of the UART recurse on a schedule that says before
-- which tries a transfer interrupt came.
--
-- Signed integers are exact (Prelude.Int), since C++ leaves their overflow undefined; casts wrap.
-- Floats are kept as the integers that the code divides to make them, and the texts that `%f` makes
-- are a parameter. The rounds of a task are steps; what other tasks publish meanwhile is part of what
-- the next round finds.
--
-- Not modelled: the pins, bus set-up and DMA registers (only what they do to the rings), the LED, the
-- contexts, stacks and delays of the tasks, the hooks of FreeRTOS, the voltage of the ADC and
-- averageDouble (floats), and the debug scripts. `DEBUG_...` output, echoes, prompts and
-- dumpFramesOldestFirst, which only print, are left out.
pub mod Prelude
pub mod Crc
pub mod Protocol
pub mod Frame
pub mod Memory
pub mod MovingAverage
pub mod Driver
pub mod FlashApi
pub mod Client
pub mod Storage
pub mod Uart
pub mod WifiTask
pub mod AdcTask
pub mod EnvironmentTask
pub mod TemperatureTask
pub mod QueueApi
pub mod Logger
pub mod Console
pub mod DisplayMode
pub mod I2c
pub mod Bme280
pub mod Aeadt7410
pub mod Aqm0802
pub mod EnvironmentData
pub mod Http
pub mod Boot
pub mod Button
pub mod Examples
